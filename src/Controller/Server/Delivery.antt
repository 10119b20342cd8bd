-- ===== src/Controller/Server/Delivery.antt =====
-- internal/controller/server.go: Broadcast and BroadcastTo, by which the orchestrator's messages reach
-- the send queues of the clients. Each client in the map of connections has a queue of its own, which its
-- write loop empties meanwhile.
pub mod Reached
use home_bench.Base.{
  ℕ, Bool, true, false, List, [], ◌∷◌, Option, none, some, Text, list_eq, nat_eq, drop, lookup,
  insert, keys,
}
use home_bench.Controller.Orchestrator.State.{
  Effect, broadcast, broadcast_to, Message, metrics_begin, metrics_freeze, cancel_run, spawn_run,
  save_config,
}
use home_bench.Controller.Server.Queue.{enqueue}

abbrev pub Queues : Type 0 → Type 0
Queues A = List (Text × List A)

-- How many messages the write loop of a client takes before the oldest one is dropped, and after it.
abbrev pub Drained : Type 0
Drained = Text → ℕ × ℕ

module _ {A : Type 0} (drained : Drained) where
  -- `if c := s.clients[id]; c != nil { ... }`, and c.enqueue(raw)
  unfoldable pub enqueue_at : A → Text → Queues A → Queues A
  enqueue_at raw id queues = elim (lookup id queues) [
    | none ↦ queues
    | some out ↦ insert id (enqueue raw (drop (drained id).0) (drop (drained id).1) out).0 queues
  ]

  -- BroadcastTo
  unfoldable pub send_to_all : A → List Text → Queues A → Queues A
  unfolding enqueue_at
  send_to_all raw [] queues = queues
  send_to_all raw (id ∷ ids) queues = send_to_all raw ids (enqueue_at raw id queues)

  -- Broadcast
  unfoldable pub send_to_everyone : A → Queues A → Queues A
  unfolding send_to_all
  send_to_everyone raw queues = send_to_all raw (keys queues) queues

module _ {F : Type 0} (drained : Drained) where
  -- What an effect of the orchestrator does to the queues.
  unfoldable pub deliver : Effect F → Queues (Message F) → Queues (Message F)
  unfolding send_to_everyone
  deliver (broadcast msg) queues = send_to_everyone drained msg queues
  deliver (broadcast_to ids msg) queues = send_to_all drained msg ids queues
  deliver metrics_begin queues = queues
  deliver metrics_freeze queues = queues
  deliver cancel_run queues = queues
  deliver (spawn_run cfg n) queues = queues
  deliver (save_config path cfg) queues = queues

  unfoldable pub deliver_all : List (Effect F) → Queues (Message F) → Queues (Message F)
  unfolding deliver
  deliver_all [] queues = queues
  deliver_all (e ∷ es) queues = deliver_all es (deliver e queues)
