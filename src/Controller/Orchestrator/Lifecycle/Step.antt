-- ===== src/Controller/Orchestrator/Lifecycle/Step.antt =====
-- The interleavings of the orchestrator's methods (internal/controller/orchestrator.go): requests of
-- the UI, clients that come and go, and the goroutine of the run, each as one event per time that
-- the mutex is taken. `pending` counts the Stop and OnClientRemoved calls that have released the
-- mutex and have still to notify the clients; `sent` lists the effects so far.
use home_bench.Base.{
  ℕ, zero, suc, ◌+◌, Bool, true, false, List, [], ◌∷◌, ◌++◌, Text, nat_eq, list_eq, if◌then◌else◌,
  is_some, Float64,
}
use home_bench.Protocol.Phase.{Phase}
use home_bench.Protocol.Config.{Config}
use home_bench.Controller.Registry.{Registry}
use home_bench.Controller.Orchestrator.State.{Orchestrator, Outcome, Effect}
use home_bench.Controller.Orchestrator.Settings.{set_config, set_phase_enabled}
use home_bench.Controller.Orchestrator.Selection.{
  ParticipantUpdate, update_participants, set_selected_clients, on_client_registered,
}
use home_bench.Controller.Orchestrator.Lifecycle.{
  start, stop, on_client_removed, set_phase, finish, update_client_files, notify_stop,
  new_orchestrator,
}

pub record World (F : Type 0) : Type 0 where
  pub orch : Orchestrator F
  pub alive : Bool  -- the goroutine of a run exists
  pub pending : ℕ
  pub sent : List (Effect F)

pub data Event (F : Type 0) : Type 0 where
  registry_changes : Registry → Event F
  configures : Config F → Event F
  toggles : Phase → Bool → Event F
  updates : ParticipantUpdate → Event F
  selects : List Text → Event F
  registers : Text → Event F
  loses : ℕ → Text → Text → Event F
  starts : ℕ → Event F
  stops : ℕ → Event F
  notifies : Event F
  phases : ℕ → Phase → ℕ → Text → Event F
  finishes : ℕ → Text → Event F
  reports_files : ℕ → Event F

module _ {F : Type 0} where
  after_call : World F → Outcome F → World F
  after_call w r = record w { orch = r.after; sent = w.sent ++ r.effects }

  after_half : World F → Outcome F × Bool → World F
  after_half w (r, more) = record w {
    orch = r.after;
    pending = if more then w.pending + 1 else w.pending;
    sent = w.sent ++ r.effects;
  }

  after_start : World F → Outcome F → World F
  after_start w r = record w {
    orch = r.after;
    alive = if is_some r.error then w.alive else true;
    sent = w.sent ++ r.effects;
  }

  module _ ⦃f : Float64 F⦄ where
    -- The run's own events happen only while its goroutine exists.
    unfoldable pub step : Event F → World F → World F
    unfolding after_call after_half after_start
    step (registry_changes r) w = record w { orch = record (w.orch) { registry = r } }
    step (configures c) w = after_call w (set_config c w.orch)
    step (toggles phase enabled) w = after_call w (set_phase_enabled phase enabled w.orch)
    step (updates u) w = after_call w (update_participants u w.orch)
    step (selects client_ids) w = after_call w (set_selected_clients client_ids w.orch)
    step (registers id) w = record w { orch = on_client_registered id w.orch }
    step (loses now id hostname) w = after_half w (on_client_removed now id hostname w.orch)
    step (starts now) w = after_start w (start now w.orch)
    step (stops now) w = after_half w (stop now w.orch)
    step notifies w = elim w.pending [
      | zero ↦ w
      | suc left ↦ record w { pending = left; sent = w.sent ++ notify_stop w.orch }
    ]
    step (phases now phase percent text) w =
        if w.alive then record w { orch = set_phase now phase percent text w.orch } else w
    step (finishes now text) w =
        if w.alive then record (after_call w (finish now text w.orch)) { alive = false } else w
    step (reports_files n) w = record w { orch = update_client_files n w.orch }

    unfoldable pub run_events : List (Event F) → World F → World F
    run_events [] w = w
    run_events (e ∷ es) w = run_events es (step e w)

  unfoldable pub new_world : Config F → Registry → Text → World F
  new_world c r path = record {
    orch = new_orchestrator c r path;
    alive = false;
    pending = 0;
    sent = [];
  }
