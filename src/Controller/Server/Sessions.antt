-- ===== src/Controller/Server/Sessions.antt =====
-- internal/controller/server.go: what the connections of the clients do to the registry, the
-- orchestrator, the metrics store and the map of connections. A connection is a number; a handler
-- knows its own and the id that it registered. What is written to a connection is not modelled, and
-- requestUI is in Refresh.
pub mod Takeover
use home_bench.Base.{
  ℕ, ◌*◌, Bool, true, false, not, ◌&&◌, List, [], ◌∷◌, ◌++◌, Option, none, some, Text, ◌==◌, nat_eq,
  list_eq, if◌then◌else◌, lookup, insert, delete, keys, ltb, leb, Float64,
}
use home_bench.Protocol.Phase.{Phase}
use home_bench.Protocol.Interval.{second, metrics_interval_for_clients}
use home_bench.Protocol.Prefix.{select_prefix}
use home_bench.Protocol.Config.{Config}
use home_bench.Protocol.Sample.{MetricSample}
use home_bench.Controller.Metrics.{MetricsStore, enqueue, new_metrics_store}
use home_bench.Controller.Registry
use home_bench.Controller.Registry.{
  Registry, ClientInfo, new_registry, upsert, touch, set_status, lookup_client, remove_client,
  prune,
}
use home_bench.Controller.Orchestrator.State.{Orchestrator, Outcome, Effect}
use home_bench.Controller.Orchestrator.Selection.{on_client_registered, is_participant}
use home_bench.Controller.Orchestrator.Lifecycle.{
  on_client_removed, new_orchestrator, notify_stop, update_client_files,
}

-- ClientStaleAfter
abbrev pub client_stale_after : ℕ
client_stale_after = 90 * second

-- The server with its parts; `closed` notes the connections that it has closed, and `effects` what the
-- orchestrator has asked for.
pub record Server (F : Type 0) : Type 0 where
  pub orch : Orchestrator F
  pub metrics : MetricsStore F
  pub clients : List (Text × ℕ)
  pub closed : List ℕ
  pub effects : List (Effect F)

-- WelcomeMsg, the interval in nanoseconds.
pub record Welcome (F : Type 0) : Type 0 where
  pub client_id : Text
  pub prefix : Text
  pub config : Config F
  pub metrics_interval : ℕ

-- The old connection of an id that registers again over another one.
unfoldable pub close_old : ℕ → Option ℕ → List ℕ → List ℕ
close_old conn none closed = closed
close_old conn (some old) closed = if old == conn then closed else old ∷ closed

-- The hostname by which a loss is reported.
abbrev pub host_of : Option ClientInfo → Text
host_of none = []
host_of (some info) = info.hostname

module _ {F : Type 0} where
  abbrev pub registry_of : Server F → Registry
  registry_of s = s.orch.registry

  abbrev pub with_registry : Registry → Server F → Server F
  with_registry r s = record s { orch = record s.orch { registry = r } }

  -- The part of "register" at the registry and the orchestrator.
  unfoldable pub enter : ℕ → Text → Text → Server F → Server F
  enter now id hostname s =
      let prefix = select_prefix hostname s.orch.cfg.prefixes in
      let known = (upsert now id hostname prefix (registry_of s)).0 in
      record s { orch = on_client_registered id (record s.orch { registry = known }) }

  -- The part of "register" under the mutex.
  unfoldable pub connect : ℕ → Text → Server F → Server F
  unfolding close_old
  connect conn id s = record s {
    clients = insert id conn s.clients;
    closed = close_old conn (lookup id s.clients) s.closed;
  }

  -- "register", both parts with nothing between them: the id that the handler has then, and the answer.
  -- `fresh_id` is a new UUID.
  unfoldable pub register : ℕ → ℕ → Text → Text → Text → Server F → Server F × Text × Welcome F
  unfolding enter connect
  register now conn fresh_id asked_id hostname s =
      let id = if asked_id == [] then fresh_id else asked_id in
      let cfg = s.orch.cfg in
      let connected = connect conn id (enter now id hostname s) in
      (
        connected,
        id,
        record {
          client_id = id;
          prefix = select_prefix hostname cfg.prefixes;
          config = cfg;
          metrics_interval = metrics_interval_for_clients (Registry.count (registry_of connected));
        },
      )

  -- The id by which a sample is stored, and the sample; a timestamp of 0 is the zero time.
  unfoldable pub own_sample : ℕ → Text → MetricSample F → Text × MetricSample F
  own_sample now_sec client_id m =
      let stamped = if m.timestamp == 0 then record m { timestamp = now_sec } else m in
      if client_id == []
      then (m.client_id, stamped)
      else (client_id, record stamped { client_id = client_id })

  -- "metrics"
  unfoldable pub take_metrics : ⦃f : Float64 F⦄ → ℕ → Text → MetricSample F → Server F → Server F
  take_metrics ⦃f⦄ now_sec client_id m s =
      let owned = own_sample now_sec client_id m in
      if not (owned.0 == []) && is_participant owned.0 s.orch
      then record s { metrics = enqueue owned.1 s.metrics }
      else s

  -- "heartbeat", and the ping and pong of a registered client
  unfoldable pub heartbeat : ℕ → Text → Option Text → Server F → Server F
  heartbeat now client_id status_id s =
      if not (client_id == [])
      then with_registry (touch now client_id (registry_of s)) s
      else elim status_id [ none ↦ s | some id ↦ with_registry (touch now id (registry_of s)) s ]

  -- "status"
  unfoldable pub take_status : ℕ → Text → Text → Phase → ℕ → Server F → Server F
  take_status now id status phase files s =
      let known = with_registry (set_status now id status phase (registry_of s)) s in
      if ltb 0 files then record known { orch = update_client_files files known.orch } else known

  -- OnClientRemoved, both parts with nothing between them
  unfoldable pub forget : ℕ → Text → Text → Server F → Server F
  forget now id hostname s =
      let lost = on_client_removed now id hostname s.orch in
      let notices = if lost.1 then notify_stop lost.0.after else [] in
      record s { orch = lost.0.after; effects = s.effects ++ (lost.0.effects ++ notices) }

  -- The end of a handler: the registry and the map, under the mutex, if the connection is the one that
  -- the id has; then the orchestrator.
  unfoldable pub disconnect : ℕ → ℕ → Text → Server F → Server F
  unfolding forget
  disconnect now conn client_id s = elim (lookup client_id s.clients) [
    | none ↦ s
    | some current ↦
        let host = host_of (lookup_client client_id (registry_of s)) in
        let gone = record (with_registry (remove_client client_id (registry_of s)) s) {
          clients = delete client_id s.clients;
        } in
        if not (client_id == []) && (current == conn) then forget now client_id host gone else s
  ]

  -- The ticker of StartBackground: Prune, and then for each client that is gone its connection and the
  -- orchestrator.
  unfoldable pub prune_stale : ℕ → Server F → Server F × List ClientInfo
  prune_stale now s =
      let pruned = prune now client_stale_after (registry_of s) in
      (with_registry pruned.0 s, pruned.1)

  unfoldable pub drop_pruned : ℕ → ClientInfo → Server F → Server F
  unfolding forget
  drop_pruned now info s =
      let cut : Server F = elim (lookup info.id s.clients) [
        | none ↦ s
        | some conn ↦ record s { clients = delete info.id s.clients; closed = conn ∷ s.closed }
      ] in
      forget now info.id info.hostname cut

  -- NewServer, with the configuration that was loaded or is the default.
  unfoldable pub new_server : ⦃f : Float64 F⦄ → Config F → Text → Server F
  new_server c path = record {
    orch = new_orchestrator c new_registry path;
    metrics = new_metrics_store;
    clients = [];
    closed = [];
    effects = [];
  }
