-- ===== src/Controller/Server/Api/Stopped.antt =====
-- Whom a stop reaches, and what a change of the configuration answers: internal/controller/server.go.
use home_bench.Base.{
  ℕ, ◌≡◌, refl, true, false, [], ◌++◌, Option, none, some, Text, nat_eq, list_eq, list_beq, lookup,
  contains, arith, Float64,
}
use home_bench.Protocol.Config.{Config}
use home_bench.Controller.Orchestrator.State.{Orchestrator, Message, stop_msg}
use home_bench.Controller.Orchestrator.Settings.{checked_config, filled_config, set_config}
use home_bench.Controller.Orchestrator.Lifecycle.{stop, notify_stop}
use home_bench.Controller.Server.Sessions.{Server}
use home_bench.Controller.Server.Delivery.{Queues, Drained, send_to_all, deliver, deliver_all}
use home_bench.Controller.Server.Delivery.Reached.{Reached, WithinCapacity, lookup-send_to_all}
use home_bench.Controller.Server.Api.{
  get, put, post, config_reply, stop_effects, unless_error, put_config, handle_config, stop_run,
  handle_stop,
}

module _ {F : Type 0} (drained : Drained) where
  delivered :
      (now : ℕ) (o : Orchestrator F) (queues : Queues (Message F))
      → o.running ≡ true
      → o.fail_message ≡ []
      → deliver_all drained (stop_effects now o) queues
        ≡ send_to_all drained (stop_msg true) o.run_client_ids queues
  unfolding stop_effects stop notify_stop deliver_all deliver list_beq
  delivered now o queues r k = ground (arith, r, k)

  -- Stop over HTTP, on a run that is under way and has not failed, with nothing between its two parts,
  -- asks for the messages of Stop; and when those are delivered to queues within their capacity, the stop
  -- is the last message in the queue of every participant that is connected, whatever the write loops take
  -- meanwhile, and the queues of all others are as they were.
  pub handle_stop-Reached :
      (now : ℕ) (s : Server F) (queues : Queues (Message F)) (id : Text)
      → s.orch.running ≡ true
      → s.orch.fail_message ≡ []
      → WithinCapacity queues
      → ((handle_stop now post s).server.effects ≡ s.effects ++ stop_effects now s.orch)
        × Reached
            (stop_msg true)
            (contains id s.orch.run_client_ids)
            (lookup id queues)
            (lookup id (deliver_all drained (stop_effects now s.orch) queues))
  unfolding handle_stop stop_run
  handle_stop-Reached now s queues id r k few = (
    refl,
    rw (delivered now s.orch queues r k)
        (lookup-send_to_all drained (stop_msg true) s.orch.run_client_ids queues id few),
  )

module _ {F : Type 0} ⦃f : Float64 F⦄ where
  -- A configuration that is accepted is stored with its defaults filled in and its disabled phases
  -- normalised, and GET shows it so; but the answer of PUT repeats what was sent.
  handle_config_answers :
      (c : Config F) (body : Option (Config F)) (s : Server F)
      → checked_config c ≡ none
      → s.orch.running ≡ false
      → ((handle_config put (some c) s).reply ≡ config_reply c)
        × ((handle_config get body (handle_config put (some c) s).server).reply
            ≡ config_reply (filled_config c))
  unfolding handle_config put_config unless_error set_config
  handle_config_answers c body s k r = ground (arith, k, r)
