-- ===== src/Controller/Orchestrator/Tests.antt =====
-- A controller with two clients: runs of the orchestrator's methods
-- (internal/controller/orchestrator.go), and the theorems at these states.
use home_bench.Base.{
  ◌==◌, ◌⊎◌, Text, drop, is_some, length, ℕ, ◌≡◌, refl, true, false, not, ◌&&◌, List, [], ◌∷◌, ◌++◌,
  codes, nat_eq, list_eq, list_beq, if◌then◌else◌, contains, insert, lookup, add, add_all, remove,
  remove, pos, trim_space, whole_floats,
}
use home_bench.Protocol.Config.Normalize.{phase_disabled-same_group}
use home_bench.Protocol.Phase.{Phase, phase_eq, phase_beq, toggle_group}
use home_bench.Protocol.Config.{
  Config, phase_selected, effective_phase_order, phase_disabled, normalize_disabled_phases,
  active_phase_order, software_enabled, git_clone_enabled, untar_enabled, has_text,
}
use home_bench.Controller.Registry.{Registry, new_registry, upsert, ids, count}
use home_bench.Controller.Orchestrator.State.{
  Orchestrator, broadcast_to, metrics_freeze, stop_msg, cancel_run,
}
use home_bench.Controller.Orchestrator.Settings.{set_phase_enabled, toggled}
use home_bench.Controller.Orchestrator.Settings.Phases.{contains-set_phase_enabled}
use home_bench.Controller.Orchestrator.Selection.{
  ParticipantUpdate, update_participants, on_client_registered, connected_selected, known_ids,
}
use home_bench.Controller.Orchestrator.Selection.Laws.{chosen, contains-update_participants}
use home_bench.Controller.Orchestrator.Lifecycle.{start, lost_message, new_orchestrator}
use home_bench.Controller.Orchestrator.Lifecycle.Starting.{start_lem}
use home_bench.Controller.Orchestrator.Lifecycle.Step.{
  World, Event, registry_changes, registers, loses, starts, stops, notifies, phases, finishes, step,
  run_events, new_world,
}
use home_bench.Controller.Orchestrator.Lifecycle.Soundness.{IsSound, history-IsSound}
use home_bench.Controller.Orchestrator.Lifecycle.Frozen.{
  IsFrozen, run_events-IsFrozen, lost_participant_fails_run, late_stop_reaches_nobody,
}

-- Two phases are left: create and delete. The others of the plan are disabled, in its order.
abbrev plan : Config ℕ
plan = record {
  test_name = codes "bench1";
  prefixes = codes "/a" ∷ codes "/b" ∷ [];
  file_creation_rate = 1000;
  file_deletion_rate = 1000;
  file_write_bandwidth = 500;
  file_read_bandwidth = 500;
  phase_step_seconds = 30;
  random_write_iops = 0;
  random_read_iops = 0;
  package_url = [];
  startup_command = [];
  git_clone_url = [];
  untar_url = [];
  disabled_phases =
      Phase.write_bw ∷ Phase.read_bw ∷ Phase.read_write ∷ Phase.riops ∷ Phase.final_delete ∷ [];
}

abbrev fleet : Registry
fleet =
    (upsert 160 (codes "a") (codes "host1") (codes "/a")
      (upsert 100 (codes "b") (codes "host2") (codes "/a") new_registry).0).0

-- The two clients register, and the run starts.
abbrev opening : List (Event ℕ)
opening = registry_changes fleet ∷ registers (codes "b") ∷ registers (codes "a") ∷ starts 500 ∷ []

abbrev running_world : World ℕ
running_world = run_events opening (new_world plan new_registry [])

abbrev ready : Orchestrator ℕ
ready = new_orchestrator plan fleet []

is_running :
    (running_world.orch.running ≡ true)
    × (running_world.orch.run_client_ids ≡ codes "b" ∷ codes "a" ∷ [])
    × (running_world.orch.fail_message ≡ [])
    × (running_world.orch.cancel ≡ true)
    × (running_world.alive ≡ true)
    × (running_world.orch.phase ≡ Phase.create)
unfolding run_events step start on_client_registered new_world new_orchestrator count upsert insert
    lookup list_beq connected_selected known_ids ids contains add add_all active_phase_order
    normalize_disabled_phases effective_phase_order software_enabled git_clone_enabled untar_enabled
    has_text trim_space phase_disabled phase_beq toggle_group
is_running = (refl, refl, refl, refl, refl, refl)

running_world-IsSound : IsSound running_world
running_world-IsSound = history-IsSound plan new_registry [] opening

abbrev updates : ParticipantUpdate
updates = record { mode = codes " First_N "; n = pos 1; client_ids = []; adds = []; removes = [] }

history-IsSound_example : IsSound (run_events opening (new_world plan new_registry []))
history-IsSound_example = history-IsSound plan new_registry [] opening

contains-update_participants_example :
    contains (codes "a") (update_participants updates ready).after.selected_ids
    ≡ chosen updates fleet [] (codes "a")
unfolding new_orchestrator
contains-update_participants_example = contains-update_participants updates ready (codes "a") refl

abbrev meanwhile : List (Event ℕ)
meanwhile = stops 800 ∷ phases 900 Phase.delete 0 (codes "delete") ∷ registers (codes "c") ∷ []

run_events-IsFrozen_example : IsFrozen running_world.orch (run_events meanwhile running_world).orch
run_events-IsFrozen_example =
    run_events-IsFrozen meanwhile running_world (refl, (refl, (refl, tt))) is_running.0

lost_participant_fails_run_example :
    ((step (loses 700 (codes "a") (codes "host1")) running_world).orch.phase ≡ Phase.stopped)
    × ((step (loses 700 (codes "a") (codes "host1")) running_world).sent
        ≡ running_world.sent ++ (if running_world.orch.cancel then cancel_run ∷ [] else []))
    × ((step notifies (step (loses 700 (codes "a") (codes "host1")) running_world)).sent
        ≡ (step (loses 700 (codes "a") (codes "host1")) running_world).sent
          ++ (broadcast_to running_world.orch.run_client_ids (stop_msg true) ∷ metrics_freeze ∷ []))
    × ((step (finishes 950 (codes "Completed")) (
          run_events meanwhile
            (step (loses 700 (codes "a") (codes "host1")) running_world))).orch.status_text
        ≡ lost_message (codes "a") (codes "host1"))
unfolding contains list_beq
lost_participant_fails_run_example =
    lost_participant_fails_run 700 950 (codes "a") (codes "host1") (codes "Completed") meanwhile
      running_world running_world-IsSound is_running.0 is_running.2 (rw is_running.1 refl)
      (refl, (refl, (refl, tt)))

late_stop_reaches_nobody_example :
    (step notifies (step (finishes 750 (codes "Stopped")) (step (stops 700) running_world))).sent
    ≡ ((running_world.sent ++ (cancel_run ∷ [])) ++ (metrics_freeze ∷ []))
      ++ (broadcast_to [] (stop_msg true) ∷ metrics_freeze ∷ [])
late_stop_reaches_nobody_example =
    late_stop_reaches_nobody 700 750 (codes "Stopped") running_world is_running.0 is_running.2
      is_running.3 is_running.4

contains-set_phase_enabled_example :
    contains Phase.delete (set_phase_enabled Phase.riops true ready).after.cfg.disabled_phases ≡ (
      (if contains Phase.delete (toggle_group Phase.riops)
        then not true
        else contains Phase.delete ready.cfg.disabled_phases)
      && contains Phase.delete (effective_phase_order ready.cfg))
unfolding new_orchestrator phase_disabled set_phase_enabled normalize_disabled_phases
    effective_phase_order software_enabled git_clone_enabled untar_enabled has_text trim_space
    list_beq contains add add_all phase_beq toggle_group active_phase_order toggled remove
contains-set_phase_enabled_example =
    contains-set_phase_enabled Phase.delete Phase.riops true ready (phase_disabled-same_group plan)
      refl

-- The two clients are registered and selected.
abbrev chosen_world : World ℕ
chosen_world =
    run_events (registry_changes fleet ∷ registers (codes "b") ∷ registers (codes "a") ∷ [])
      (new_world plan new_registry [])

start_lem_example :
    (is_some (start 500 chosen_world.orch).error ≡ true
      → (chosen_world.orch.running ≡ true)
        ⊎ ((a : Text)
            → (contains a (ids chosen_world.orch.registry)
                && contains a chosen_world.orch.selected_ids)
              ≡ false)
        ⊎ ((p : Phase)
            → phase_selected (normalize_disabled_phases chosen_world.orch.cfg) p ≡ false))
    × (is_some (start 500 chosen_world.orch).error ≡ false
        → (chosen_world.orch.running ≡ false)
          × ((start 500 chosen_world.orch).after.running ≡ true)
          × ((a : Text)
              → contains a (start 500 chosen_world.orch).after.run_client_ids ≡ (
                  contains a (ids chosen_world.orch.registry)
                  && contains a chosen_world.orch.selected_ids))
          × ((length (start 500 chosen_world.orch).after.run_client_ids == 0) ≡ false)
          × (phase_selected
                (normalize_disabled_phases chosen_world.orch.cfg)
                (start 500 chosen_world.orch).after.phase
              ≡ true)
          × (active_phase_order chosen_world.orch.cfg
              ≡ (start 500 chosen_world.orch).after.phase
                ∷ drop 1 (active_phase_order chosen_world.orch.cfg)))
start_lem_example = start_lem 500 chosen_world.orch
