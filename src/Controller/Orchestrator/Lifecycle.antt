-- ===== src/Controller/Orchestrator/Lifecycle.antt =====
-- internal/controller/orchestrator.go: Start, Stop, the loss of a client, and the steps of a run on
-- the shared state. Stop and OnClientRemoved change the state under the mutex, release it, and then
-- cancel the run and call broadcastRun, which reads the participants under the mutex again: the two
-- halves are two steps, and other steps may come between them.
pub mod Invariant
pub mod Step
pub mod Soundness
pub mod Frozen
pub mod Starting
use home_bench.Base.{
  ℕ, suc, ◌-◌, Bool, true, false, not, ◌&&◌, ◌||◌, List, [], ◌∷◌, ◌++◌, Option, none, some, Text,
  codes, ◌==◌, nat_eq, list_eq, if◌then◌else◌, length, take, contains, remove, add_all, ltb,
  trim_space, decimal,
}
use home_bench.Protocol.Phase.{Phase, phase_eq, phase_label}
use home_bench.Protocol.Config.{Config, active_phase_order, normalize_disabled_phases}
use home_bench.Protocol.Interval.{metrics_interval_for_clients}
use home_bench.Controller.Registry.{Registry, count}
use home_bench.Controller.Orchestrator.State.{
  Orchestrator, PhaseSpan, Message, metrics_interval_msg, stop_msg, Effect, broadcast_to,
  metrics_begin, metrics_freeze, cancel_run, spawn_run, Refusal, already_running,
  no_clients_registered, no_clients_selected, no_phases_enabled, Outcome,
}
use home_bench.Controller.Orchestrator.Selection.{connected_selected}

-- U+2014, the dash in the status texts.
abbrev pub em_dash : Text
em_dash = 0xe2 ∷ 0x80 ∷ 0x94 ∷ []

-- closePhaseSpanLocked: the last span ends, if it is open.
unfoldable pub close_phase_span : ℕ → List PhaseSpan → List PhaseSpan
close_phase_span now [] = []
close_phase_span now (s ∷ []) = elim s.end [
  | none ↦ record s { end = some now } ∷ []
  | some t ↦ s ∷ []
]
close_phase_span now (s ∷ t ∷ rest) = s ∷ close_phase_span now (t ∷ rest)

-- The time since the start, where there is one; else the old value.
elapsed_since : ℕ → Option ℕ → ℕ → ℕ
elapsed_since now none old = old
elapsed_since now (some start) old = now - start

starting_text : Phase → ℕ → Text
starting_text phase n =
    codes "Starting " ++ (phase_label phase ++ (codes " (" ++ (decimal n ++ codes " clients)")))

lost_label : Text → Text → Text
lost_label id hostname =
    let label = trim_space hostname in
    if label == [] then (if ltb 8 (length id) then take 8 id else id) else label

unfoldable pub lost_message : Text → Text → Text
unfolding lost_label
lost_message id hostname =
    codes "FAILED RUN "
    ++ (em_dash ++ (codes " participant lost (" ++ (lost_label id hostname ++ codes ")")))

module _ {F : Type 0} where
  cancels : Orchestrator F → List (Effect F)
  cancels o = if o.cancel then cancel_run ∷ [] else []

  -- Start, when it has found the participants and the phases.
  started : ℕ → List Text → Phase → Orchestrator F → Outcome F
  unfolding starting_text
  started now participants first o =
      let n = length participants in
      let interval = metrics_interval_for_clients n in
      record {
        after = record o {
          cancel = true;
          running = true;
          run_client_ids = participants;
          run_client_set = some (add_all participants []);
          metrics_interval = interval;
          auto_select_new = false;
          fail_message = [];
          started_at = some now;
          elapsed = 0;
          phase = first;
          percent = 0;
          files_created = 0;
          phase_spans = [];
          status_text = starting_text first n;
        };
        effects =
            metrics_begin
            ∷ broadcast_to participants (metrics_interval_msg interval)
            ∷ spawn_run o.cfg n
            ∷ [];
        error = none;
      }

  refuse_start : Orchestrator F → Refusal → Outcome F
  refuse_start o e = record { after = o; effects = []; error = some e }

  start_with : ℕ → List Text → List Phase → Orchestrator F → Outcome F
  unfolding started refuse_start
  start_with now [] active o = refuse_start o no_clients_selected
  start_with now (id ∷ rest) [] o = refuse_start o no_phases_enabled
  start_with now (id ∷ rest) (first ∷ active) o = started now (id ∷ rest) first o

  -- Start
  unfoldable pub start : ℕ → Orchestrator F → Outcome F
  unfolding start_with refuse_start
  start now o =
      if o.running
      then refuse_start o already_running
      else if count o.registry == 0
      then refuse_start o no_clients_registered
      else start_with now (connected_selected o) (active_phase_order o.cfg) o

  -- broadcastRun, to the participants of the state that it finds.
  unfoldable pub broadcast_run : Message F → Orchestrator F → List (Effect F)
  broadcast_run msg o = broadcast_to o.run_client_ids msg ∷ []

  -- What Stop and OnClientRemoved do once they have released the mutex.
  unfoldable pub notify_stop : Orchestrator F → List (Effect F)
  unfolding broadcast_run
  notify_stop o = broadcast_run (stop_msg true) o ++ (metrics_freeze ∷ [])

  -- The locked part of Stop, and whether it goes on to the second part.
  unfoldable pub stop : ℕ → Orchestrator F → Outcome F × Bool
  unfolding cancels elapsed_since
  stop now o =
      if not o.running
      then (record { after = o; effects = []; error = none }, false)
      else if not (o.fail_message == [])
      then (record { after = o; effects = []; error = none }, false)
      else (
        record {
          after = record o {
            cancel = false;
            phase = Phase.stopped;
            percent = 0;
            status_text = codes "Stopped " ++ (em_dash ++ codes " clients cleaning up");
            phase_spans = close_phase_span now o.phase_spans;
            elapsed = elapsed_since now o.started_at o.elapsed;
          };
          effects = cancels o;
          error = none;
        },
        true,
      )

  -- Whether the run that is under way has the client among its frozen participants.
  was_participant : Text → Orchestrator F → Bool
  was_participant id o = elim o.run_client_set [
    | some set ↦ contains id set
    | none ↦ contains id o.run_client_ids
  ]

  -- The locked part of OnClientRemoved, and whether it goes on to the second part.
  unfoldable pub on_client_removed : ℕ → Text → Text → Orchestrator F → Outcome F × Bool
  unfolding cancels elapsed_since was_participant
  on_client_removed now id hostname o =
      let o' = record o { selected_ids = remove id o.selected_ids } in
      if not o.running || not (o.fail_message == [])
      then (record { after = o'; effects = []; error = none }, false)
      else if not (was_participant id o)
      then (record { after = o'; effects = []; error = none }, false)
      else (
        record {
          after = record o' {
            cancel = false;
            fail_message = lost_message id hostname;
            status_text = lost_message id hostname;
            phase = Phase.stopped;
            percent = 0;
            phase_spans = close_phase_span now o.phase_spans;
            elapsed = elapsed_since now o.started_at o.elapsed;
          };
          effects = cancels o;
          error = none;
        },
        true,
      )

  -- setPhase
  unfoldable pub set_phase : ℕ → Phase → ℕ → Text → Orchestrator F → Orchestrator F
  set_phase now phase percent text o =
      let spans =
        if not (phase == o.phase) || length o.phase_spans == 0
        then close_phase_span now o.phase_spans
          ++ (record { phase = phase; start = now; end = none } ∷ [])
        else o.phase_spans in
      record o { phase_spans = spans; phase = phase; percent = percent; status_text = text }

  -- finish
  unfoldable pub finish : ℕ → Text → Orchestrator F → Outcome F
  unfolding elapsed_since
  finish now text o = record {
    after = record o {
      phase_spans = close_phase_span now o.phase_spans;
      elapsed = elapsed_since now o.started_at o.elapsed;
      running = false;
      run_client_ids = [];
      run_client_set = none;
      metrics_interval = 0;
      fail_message = [];
      phase = Phase.idle;
      percent = 0;
      status_text = if not (o.fail_message == []) then o.fail_message else text;
      cancel = false;
    };
    effects = metrics_freeze ∷ [];
    error = none;
  }

  -- UpdateClientFiles
  unfoldable pub update_client_files : ℕ → Orchestrator F → Orchestrator F
  update_client_files n o = if ltb o.files_created n then record o { files_created = n } else o

  -- NewOrchestrator, with the configuration that was loaded or is the default.
  unfoldable pub new_orchestrator : Config F → Registry → Text → Orchestrator F
  new_orchestrator c r path = record {
    cfg = normalize_disabled_phases c;
    registry = r;
    config_path = path;
    selected_ids = [];
    auto_select_new = true;
    run_client_ids = [];
    run_client_set = none;
    metrics_interval = 0;
    running = false;
    phase = Phase.idle;
    percent = 0;
    started_at = none;
    elapsed = 0;
    status_text = codes "Ready";
    fail_message = [];
    cancel = false;
    phase_spans = [];
    files_created = 0;
  }
