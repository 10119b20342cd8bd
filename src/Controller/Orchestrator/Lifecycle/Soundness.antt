-- ===== src/Controller/Orchestrator/Lifecycle/Soundness.antt =====
-- The state of the orchestrator (internal/controller/orchestrator.go) over the interleavings of its methods.
use home_bench.Base.{
  ℕ, zero, suc, ◌≡◌, refl, ◌∙◌, Bool, true, false, List, [], ◌∷◌, ◌++◌, arith, Text, if◌then◌else◌,
  if_elim, is_some, Float64,
}
use home_bench.Protocol.Phase.{Phase}
use home_bench.Protocol.Config.{Config}
use home_bench.Controller.Registry.{Registry}
use home_bench.Controller.Orchestrator.State.{Orchestrator}
use home_bench.Controller.Orchestrator.Settings.{set_config, set_phase_enabled}
use home_bench.Controller.Orchestrator.Selection.{
  ParticipantUpdate, update_participants, set_selected_clients, on_client_registered,
}
use home_bench.Controller.Orchestrator.Lifecycle.{
  start, stop, on_client_removed, set_phase, finish, update_client_files, notify_stop,
  new_orchestrator,
}
use home_bench.Controller.Orchestrator.Lifecycle.Invariant.{
  IsConsistent, Shape, update_participants-IsConsistent, set_phase-IsConsistent,
  finish-IsConsistent, start-IsConsistent, stop-IsConsistent, on_client_removed-IsConsistent,
  on_client_registered-IsConsistent, set_selected_clients-IsConsistent,
  set_phase_enabled-IsConsistent, set_config-IsConsistent, update_client_files-IsConsistent,
}
use home_bench.Controller.Orchestrator.Lifecycle.Step.{
  World, Event, registry_changes, configures, toggles, updates, selects, registers, loses, starts,
  stops, notifies, phases, finishes, reports_files, step, run_events, new_world,
}

module _ {F : Type 0} where
  -- A run's goroutine exists exactly while `running` is set, and the state is consistent.
  pub record IsSound (w : World F) : Type 0 where
    pub owned : w.alive ≡ w.orch.running
    pub consistent : IsConsistent w.orch

  running-start :
      (now : ℕ) (o : Orchestrator F)
      → (start now o).after.running ≡ (if is_some (start now o).error then o.running else true)
  unfolding start
  running-start now o = ground arith

  running-stop : (now : ℕ) (o : Orchestrator F) → (stop now o).0.after.running ≡ o.running
  unfolding stop
  running-stop now o = ground arith

  running-on_client_removed :
      (now : ℕ) (id hostname : Text) (o : Orchestrator F)
      → (on_client_removed now id hostname o).0.after.running ≡ o.running
  unfolding on_client_removed
  running-on_client_removed now id hostname o = ground arith

  running-update_participants :
      (u : ParticipantUpdate) (o : Orchestrator F)
      → (update_participants u o).after.running ≡ o.running
  unfolding update_participants
  running-update_participants u o = ground arith

  running-set_selected_clients :
      (xs : List Text) (o : Orchestrator F) → (set_selected_clients xs o).after.running ≡ o.running
  unfolding set_selected_clients
  running-set_selected_clients xs o = ground arith

  running-set_phase_enabled :
      (p : Phase) (b : Bool) (o : Orchestrator F)
      → (set_phase_enabled p b o).after.running ≡ o.running
  unfolding set_phase_enabled
  running-set_phase_enabled p b o = ground arith

  Shape-registry :
      (b : Bool) (r : Registry) (o : Orchestrator F)
      → Shape b o
      → Shape b (record o { registry = r })
  Shape-registry true r o s = s
  Shape-registry false r o s = s

  running-on_client_registered :
      (id : Text) (o : Orchestrator F) → (on_client_registered id o).running ≡ o.running
  unfolding on_client_registered
  running-on_client_registered id o = ground arith

  running-update_client_files :
      (n : ℕ) (o : Orchestrator F) → (update_client_files n o).running ≡ o.running
  unfolding update_client_files
  running-update_client_files n o = ground arith

  running-finish :
      (now : ℕ) (text : Text) (o : Orchestrator F) → (finish now text o).after.running ≡ false
  unfolding finish
  running-finish now text o = refl

  module _ ⦃f : Float64 F⦄ where
    running-set_config :
        (c : Config F) (o : Orchestrator F) → (set_config c o).after.running ≡ o.running
    unfolding set_config
    running-set_config c o = ground arith

    -- Every event keeps the state sound.
    pub step-IsSound : (e : Event F) (w : World F) → IsSound w → IsSound (step e w)
    unfolding step set_phase
    step-IsSound (registry_changes r) w v = record {
      owned = v.owned;
      consistent = record {
        selection = v.consistent.selection;
        shape = Shape-registry w.orch.running r w.orch v.consistent.shape;
        spans = v.consistent.spans;
      };
    }
    step-IsSound (configures c) w v = record {
      owned = v.owned ∙ ground (arith, running-set_config c w.orch);
      consistent = set_config-IsConsistent c w.orch v.consistent;
    }
    step-IsSound (toggles p b) w v = record {
      owned = v.owned ∙ ground (arith, running-set_phase_enabled p b w.orch);
      consistent = set_phase_enabled-IsConsistent p b w.orch v.consistent;
    }
    step-IsSound (updates u) w v = record {
      owned = v.owned ∙ ground (arith, running-update_participants u w.orch);
      consistent = update_participants-IsConsistent u w.orch v.consistent;
    }
    step-IsSound (selects xs) w v = record {
      owned = v.owned ∙ ground (arith, running-set_selected_clients xs w.orch);
      consistent = set_selected_clients-IsConsistent xs w.orch v.consistent;
    }
    step-IsSound (registers id) w v = record {
      owned = v.owned ∙ ground (arith, running-on_client_registered id w.orch);
      consistent = on_client_registered-IsConsistent id w.orch v.consistent;
    }
    step-IsSound (loses now id hostname) w v = record {
      owned = v.owned ∙ ground (arith, running-on_client_removed now id hostname w.orch);
      consistent = on_client_removed-IsConsistent now id hostname w.orch v.consistent;
    }
    step-IsSound (starts now) w v = record {
      owned = ground (arith, v.owned, running-start now w.orch);
      consistent = start-IsConsistent now w.orch v.consistent;
    }
    step-IsSound (stops now) w v = record {
      owned = v.owned ∙ ground (arith, running-stop now w.orch);
      consistent = stop-IsConsistent now w.orch v.consistent;
    }
    step-IsSound notifies w v =
        (elim w.pending
          as (λ n. IsSound (elim n [
            | zero ↦ w
            | suc left ↦ record w { pending = left; sent = w.sent ++ notify_stop w.orch }
          ])) [ zero ↦ v | suc left ↦ record { owned = v.owned; consistent = v.consistent } ])
    step-IsSound (phases now p percent text) w v =
        if_elim IsSound w.alive
          (λ a. record {
            owned = v.owned;
            consistent =
                set_phase-IsConsistent now p percent text w.orch (ground (arith, v.owned, a))
                  v.consistent;
          })
          (λ _. v)
    step-IsSound (finishes now text) w v =
        if_elim IsSound w.alive
          (λ a. record {
            owned = ground (arith, running-finish now text w.orch);
            consistent = finish-IsConsistent now text w.orch v.consistent;
          })
          (λ _. v)
    step-IsSound (reports_files n) w v = record {
      owned = v.owned ∙ ground (arith, running-update_client_files n w.orch);
      consistent = update_client_files-IsConsistent n w.orch v.consistent;
    }

    pub run_events-IsSound :
        (es : List (Event F)) (w : World F) → IsSound w → IsSound (run_events es w)
    unfolding run_events
    run_events-IsSound [] w v = v
    run_events-IsSound (e ∷ es) w v = run_events-IsSound es (step e w) (step-IsSound e w v)

    new_world-IsSound : (c : Config F) (r : Registry) (path : Text) → IsSound (new_world c r path)
    unfolding new_world new_orchestrator
    new_world-IsSound c r path = record {
      owned = refl;
      consistent = record {
        selection = tt;
        shape = (refl, refl, refl, refl, refl, refl, refl);
        spans = tt;
      };
    }

    -- After any sequence of events on a new orchestrator: the goroutine of a run exists exactly
    -- while `running` is set; the selection has no repetition; while a run is under way its frozen
    -- participants are at least one, without repetition, and the same as list and as set, newcomers
    -- are not selected, the start is noted, the metrics interval is a second at least, the run was
    -- cancelled if it is marked as failed, and only the last phase span is open; otherwise all of
    -- the run's fields are cleared and every span is closed.
    pub history-IsSound :
        (c : Config F) (r : Registry) (path : Text) (es : List (Event F))
        → IsSound (run_events es (new_world c r path))
    history-IsSound c r path es = run_events-IsSound es _ (new_world-IsSound c r path)
