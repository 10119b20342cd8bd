-- ===== src/Controller/Orchestrator/Lifecycle/Invariant.antt =====
-- The state of the orchestrator (internal/controller/orchestrator.go) between two steps, method by method.
use home_bench.Base.{
  ℕ, ◌≤◌, ◌<◌, ◌≡◌, refl, inl, ◌⊎◌, Bool, true, false, List, [], ◌∷◌, ◌++◌, none, some, arith, Text,
  ◌==◌, nat_eq, list_eq, if_elim, length, Distinct, add_all, add-Distinct, remove-Distinct, is_some,
  Float64,
}
use home_bench.Protocol.Phase.{Phase}
use home_bench.Protocol.Config.{Config, active_phase_order}
use home_bench.Protocol.Interval.{second, metrics_interval_for_clients_bounds}
use home_bench.Controller.Registry.{count}
use home_bench.Controller.Orchestrator.State.{Orchestrator, PhaseSpan, Outcome}
use home_bench.Controller.Orchestrator.Settings.{set_config, set_phase_enabled}
use home_bench.Controller.Orchestrator.Selection.{
  ParticipantUpdate, update_participants, set_selected_clients, on_client_registered,
  connected_selected,
}
use home_bench.Controller.Orchestrator.Selection.Laws.{
  update_participants-Distinct, set_selected_clients-Distinct, connected_selected-Distinct,
}
use home_bench.Controller.Orchestrator.Lifecycle.{
  close_phase_span, start, start_with, started, stop, on_client_removed, set_phase, finish,
  update_client_files,
}

abbrev pub AllClosed : List PhaseSpan → Type 0
AllClosed [] = Unit
AllClosed (s ∷ rest) = (is_some s.end ≡ true) × AllClosed rest

-- Only the last span may be open.
abbrev pub LastOpen : List PhaseSpan → Type 0
LastOpen [] = Unit
LastOpen (s ∷ []) = Unit
LastOpen (s ∷ t ∷ rest) = (is_some s.end ≡ true) × LastOpen (t ∷ rest)

-- While a run is under way spans may be open at the end; otherwise all are closed.
abbrev pub Spans : Bool → List PhaseSpan → Type 0
Spans true spans = LastOpen spans
Spans false spans = AllClosed spans

module _ {F : Type 0} where
  -- The run's fields while a run is under way, and while there is none.
  abbrev pub Shape : Bool → Orchestrator F → Type 0
  Shape true o =
      (o.auto_select_new ≡ false)
      × (0 < length o.run_client_ids)
      × Distinct o.run_client_ids
      × (o.run_client_set ≡ some (add_all o.run_client_ids []))
      × (is_some o.started_at ≡ true)
      × (second ≤ o.metrics_interval)
      × ((o.fail_message ≡ []) ⊎ (o.cancel ≡ false))
  Shape false o =
      (o.run_client_ids ≡ [])
      × (o.run_client_set ≡ none)
      × (o.metrics_interval ≡ 0)
      × (o.fail_message ≡ [])
      × (o.cancel ≡ false)
      × (o.phase ≡ Phase.idle)
      × (o.percent ≡ 0)

  -- The selection has no repetition, the run's fields fit `running`, and so do the phase spans.
  pub record IsConsistent (o : Orchestrator F) : Type 0 where
    pub selection : Distinct o.selected_ids
    pub shape : Shape o.running o
    pub spans : Spans o.running o.phase_spans

AllClosed-LastOpen : (spans : List PhaseSpan) → AllClosed spans → LastOpen spans
AllClosed-LastOpen [] c = tt
AllClosed-LastOpen (s ∷ []) c = tt
AllClosed-LastOpen (s ∷ t ∷ rest) c = (c.0, AllClosed-LastOpen (t ∷ rest) c.1)

close_phase_span-AllClosed :
    (now : ℕ) (spans : List PhaseSpan) → LastOpen spans → AllClosed (close_phase_span now spans)
unfolding close_phase_span
close_phase_span-AllClosed now [] l = tt
close_phase_span-AllClosed now (s ∷ []) l = ground arith
close_phase_span-AllClosed now (s ∷ t ∷ rest) l =
    (l.0, close_phase_span-AllClosed now (t ∷ rest) l.1)

append-LastOpen :
    (spans : List PhaseSpan) (s : PhaseSpan) → AllClosed spans → LastOpen (spans ++ (s ∷ []))
append-LastOpen [] s c = tt
append-LastOpen (t ∷ []) s c = (c.0, tt)
append-LastOpen (t ∷ u ∷ rest) s c = (c.0, append-LastOpen (u ∷ rest) s c.1)

Spans-LastOpen : (running : Bool) (spans : List PhaseSpan) → Spans running spans → LastOpen spans
Spans-LastOpen true spans c = c
Spans-LastOpen false spans c = AllClosed-LastOpen spans c

module _ {F : Type 0} where
  pub update_participants-IsConsistent :
      (u : ParticipantUpdate) (o : Orchestrator F)
      → IsConsistent o
      → IsConsistent (update_participants u o).after
  unfolding update_participants
  update_participants-IsConsistent u o v =
      ground (arith, update_participants-Distinct u o v.selection)

  pub set_phase-IsConsistent :
      (now : ℕ) (phase : Phase) (percent : ℕ) (text : Text) (o : Orchestrator F)
      → o.running ≡ true
      → IsConsistent o
      → IsConsistent (set_phase now phase percent text o)
  unfolding set_phase
  set_phase-IsConsistent now phase percent text o r v = ground (
    arith,
    close_phase_span-AllClosed now o.phase_spans,
    append-LastOpen (close_phase_span now o.phase_spans)
        (record { phase = phase; start = now; end = none }),
  )

  pub finish-IsConsistent :
      (now : ℕ) (text : Text) (o : Orchestrator F)
      → IsConsistent o
      → IsConsistent (finish now text o).after
  unfolding finish
  finish-IsConsistent now text o v = record {
    selection = v.selection;
    shape = (refl, refl, refl, refl, refl, refl, refl);
    spans =
        close_phase_span-AllClosed now o.phase_spans
          (Spans-LastOpen o.running o.phase_spans v.spans);
  }

  started-IsConsistent :
      (now : ℕ) (id : Text) (rest : List Text) (first : Phase) (o : Orchestrator F)
      → Distinct o.selected_ids
      → Distinct (id ∷ rest)
      → IsConsistent (started now (id ∷ rest) first o).after
  unfolding started
  started-IsConsistent now id rest first o d e = record {
    selection = d;
    shape = (
      refl,
      omega arith,
      e,
      refl,
      refl,
      (metrics_interval_for_clients_bounds (length (id ∷ rest))).0,
      inl refl,
    );
    spans = tt;
  }

  start_with-IsConsistent :
      (now : ℕ) (participants : List Text) (active : List Phase) (o : Orchestrator F)
      → IsConsistent o
      → Distinct participants
      → IsConsistent (start_with now participants active o).after
  unfolding start_with
  start_with-IsConsistent now [] active o v d = v
  start_with-IsConsistent now (id ∷ rest) [] o v d = v
  start_with-IsConsistent now (id ∷ rest) (first ∷ active) o v d =
      started-IsConsistent now id rest first o v.selection d

  pub start-IsConsistent :
      (now : ℕ) (o : Orchestrator F) → IsConsistent o → IsConsistent (start now o).after
  unfolding start
  start-IsConsistent now o v =
      if_elim (λ (r : Outcome F). IsConsistent r.after) o.running (λ _. v)
        λ _.
          if_elim (λ (r : Outcome F). IsConsistent r.after) (count o.registry == 0) (λ _. v)
            λ _.
              start_with-IsConsistent now (connected_selected o) (active_phase_order o.cfg) o v
                (connected_selected-Distinct o v.selection)

  pub stop-IsConsistent :
      (now : ℕ) (o : Orchestrator F) → IsConsistent o → IsConsistent (stop now o).0.after
  unfolding stop
  stop-IsConsistent now o v = ground (
    arith,
    close_phase_span-AllClosed now o.phase_spans,
    AllClosed-LastOpen (close_phase_span now o.phase_spans),
  )

  pub on_client_removed-IsConsistent :
      (now : ℕ) (id hostname : Text) (o : Orchestrator F)
      → IsConsistent o
      → IsConsistent (on_client_removed now id hostname o).0.after
  unfolding on_client_removed
  on_client_removed-IsConsistent now id hostname o v = ground (
    arith,
    remove-Distinct id o.selected_ids v.selection,
    close_phase_span-AllClosed now o.phase_spans,
    AllClosed-LastOpen (close_phase_span now o.phase_spans),
  )

  pub on_client_registered-IsConsistent :
      (id : Text) (o : Orchestrator F) → IsConsistent o → IsConsistent (on_client_registered id o)
  unfolding on_client_registered
  on_client_registered-IsConsistent id o v =
      ground (arith, add-Distinct id o.selected_ids v.selection)

  pub set_selected_clients-IsConsistent :
      (xs : List Text) (o : Orchestrator F)
      → IsConsistent o
      → IsConsistent (set_selected_clients xs o).after
  unfolding set_selected_clients
  set_selected_clients-IsConsistent xs o v =
      ground (arith, set_selected_clients-Distinct xs o v.selection)

  pub set_phase_enabled-IsConsistent :
      (phase : Phase) (enabled : Bool) (o : Orchestrator F)
      → IsConsistent o
      → IsConsistent (set_phase_enabled phase enabled o).after
  unfolding set_phase_enabled
  set_phase_enabled-IsConsistent phase enabled o v = ground arith

  pub set_config-IsConsistent :
      ⦃f : Float64 F⦄ (c : Config F) (o : Orchestrator F)
      → IsConsistent o
      → IsConsistent (set_config c o).after
  unfolding set_config
  set_config-IsConsistent c o v = ground arith

  pub update_client_files-IsConsistent :
      (n : ℕ) (o : Orchestrator F) → IsConsistent o → IsConsistent (update_client_files n o)
  unfolding update_client_files
  update_client_files-IsConsistent n o v = ground arith
