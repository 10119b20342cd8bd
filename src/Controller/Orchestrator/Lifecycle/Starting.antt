-- ===== src/Controller/Orchestrator/Lifecycle/Starting.antt =====
-- Start (internal/controller/orchestrator.go): when it is refused, and what it freezes.
use home_bench.Base.{
  ◌⊎◌, inl, inr, Bool-cases, ◌&&◌, contains, DecEq, eq_self, list_eq, sym, ap, ◌∙◌, ℕ, ◌≡◌, refl,
  true, false, ◌||◌, List, [], ◌∷◌, arith, Text, ◌==◌, nat_eq, length, drop, is_some,
}
use home_bench.Protocol.Phase.{Phase, phase_eq}
use home_bench.Protocol.Config.{active_phase_order, phase_selected, normalize_disabled_phases}
use home_bench.Protocol.Config.Normalize.{contains-active_phase_order}
use home_bench.Controller.Registry.{Registry, count, ids}
use home_bench.Controller.Orchestrator.State.{Orchestrator, Outcome}
use home_bench.Controller.Orchestrator.Selection.{connected_selected}
use home_bench.Controller.Orchestrator.Selection.Laws.{contains-connected_selected}
use home_bench.Controller.Orchestrator.Lifecycle.{start, start_with, started}

contains_nothing :
    {A : Type 0} ⦃d : DecEq A⦄
    → (xs : List A) → (length xs == 0) ≡ true
    → (a : A) → contains a xs ≡ false
unfolding contains
contains_nothing [] h a = refl
contains_nothing (x ∷ xs) h a = absurd (ground (arith, h))

nobody : (r : Registry) → (count r == 0) ≡ true → (a : Text) → contains a (ids r) ≡ false
unfolding count ids contains
nobody [] h a = refl
nobody (x ∷ r) h a = absurd (ground (arith, h))

module _ {F : Type 0} where
  -- What a start leaves, by the participants and the active phases that it has found.
  abbrev Starts : List Text → List Phase → Outcome F → Type 0
  Starts participants active r =
      (is_some r.error ≡ (length participants == 0 || length active == 0))
      × (is_some r.error ≡ false
          → (r.after.running ≡ true)
            × (r.after.run_client_ids ≡ participants)
            × (active ≡ r.after.phase ∷ drop 1 active))

  start_with_lem :
      (now : ℕ) (participants : List Text) (active : List Phase) (o : Orchestrator F)
      → Starts participants active (start_with now participants active o)
  unfolding start_with started
  start_with_lem now [] active o = (refl, λ h. ground arith)
  start_with_lem now (id ∷ rest) [] o = (ground arith, λ h. ground arith)
  start_with_lem now (id ∷ rest) (first ∷ active) o = (ground arith, λ h. (refl, refl, refl))

  start_outcome :
      (now : ℕ) (o : Orchestrator F)
      → (is_some (start now o).error ≡ (
          o.running
          || (count o.registry == 0
              || (length (connected_selected o) == 0 || length (active_phase_order o.cfg) == 0))))
        × (is_some (start now o).error ≡ false
            → ((start now o).after.running ≡ true)
              × ((start now o).after.run_client_ids ≡ connected_selected o)
              × (active_phase_order o.cfg
                  ≡ (start now o).after.phase ∷ drop 1 (active_phase_order o.cfg)))
  unfolding start
  start_outcome now o =
      let (refused, begun) =
        start_with_lem now (connected_selected o) (active_phase_order o.cfg) o in
      (ground (arith, refused), λ h. ground (arith, begun))

  -- Start is refused exactly when a run is under way, no client is both registered and selected, or no phase is
  -- selected in the plan, once its disabled phases are normalised. Otherwise the run is under way; its
  -- participants are exactly the clients that are registered and selected; and it begins with a
  -- selected phase, the first one in the order of the plan.
  pub start_lem :
      (now : ℕ) (o : Orchestrator F)
      → (is_some (start now o).error ≡ true
          → (o.running ≡ true)
            ⊎ ((a : Text) → (contains a (ids o.registry) && contains a o.selected_ids) ≡ false)
            ⊎ ((p : Phase) → phase_selected (normalize_disabled_phases o.cfg) p ≡ false))
        × (is_some (start now o).error ≡ false
            → (o.running ≡ false)
              × ((start now o).after.running ≡ true)
              × ((a : Text)
                  → contains a (start now o).after.run_client_ids
                    ≡ (contains a (ids o.registry) && contains a o.selected_ids))
              × ((length (start now o).after.run_client_ids == 0) ≡ false)
              × (phase_selected (normalize_disabled_phases o.cfg) (start now o).after.phase ≡ true)
              × (active_phase_order o.cfg
                  ≡ (start now o).after.phase ∷ drop 1 (active_phase_order o.cfg)))
  unfolding contains
  start_lem now o =
      let (refused, begun) = start_outcome now o in
      let someone = connected_selected o in
      (
        λ bad. elim (Bool-cases o.running) [
          | inl r ↦ inl r
          | inr r ↦ elim (Bool-cases (count o.registry == 0)) [
            | inl e ↦ inr (inl (λ a. rw (nobody o.registry e a) refl))
            | inr e ↦ elim (Bool-cases (length someone == 0)) [
              | inl k ↦
                  inr (
                    inl (λ a. sym (contains-connected_selected o a) ∙ contains_nothing someone k a))
              | inr k ↦ elim (Bool-cases (length (active_phase_order o.cfg) == 0)) [
                | inl n ↦ inr (
                    inr (λ p.
                      sym (contains-active_phase_order o.cfg p)
                      ∙ contains_nothing (active_phase_order o.cfg) n p))
                | inr n ↦ absurd (ground (arith, bad, refused, r, e, k, n))
              ]
            ]
          ]
        ],
        λ fine.
            let (running, participants, first) = begun fine in
            let phase = (start now o).after.phase in
            (
              ground (arith, refused, fine),
              running,
              λ a. ap (contains a) participants ∙ contains-connected_selected o a,
              ap (λ xs. length xs == 0) participants ∙ ground (arith, refused, fine),
              sym (contains-active_phase_order o.cfg phase)
                  ∙ ap (contains phase) first
                  ∙ ground (arith, eq_self phase),
              first,
            ),
      )
