-- ===== src/Controller/Orchestrator/Run/Completion.antt =====
-- What a run of internal/controller/orchestrator.go shows, against the phases of ActivePhaseOrder.
use home_bench.Base.{
  ℕ, ◌≡◌, refl, ap, inl, inr, Bool, true, not, ◌&&◌, ◌||◌, List, [], ◌∷◌, ◌++◌, arith, contains,
  contains-append, select, if◌then◌else◌, Bool-cases, list_beq, Float64,
}
use home_bench.Protocol.Phase.{Phase, phase_eq, phase_beq, toggle_group}
use home_bench.Protocol.Config.{
  Config, active_phase_order, normalize_disabled_phases, phase_selected, phase_disabled,
  phase_order, effective_phase_order, software_enabled, git_clone_enabled, untar_enabled,
}
use home_bench.Protocol.Config.Normalize.{
  phase_disabled-same_group, normalize_idempotent, effective_phase_order-normalize,
}
use home_bench.Controller.Orchestrator.Run.{Reply, done, ramp_percents, run_ramp, run_ramp2}
use home_bench.Controller.Orchestrator.Run.Stages.{
  stages, later_stages, software_stage, run, fresh, through, run_software, run_git, run_untar,
  run_software_phase, run_controller_unpack, run_controller_git_bundle,
  run_controller_untar_archive, cleanup_software, send_final_cleanup,
}
use home_bench.Controller.Orchestrator.Run.Visits.{
  visits, part, visits-select_append, visits_optional, visits_software, visits_fixed, nothing,
  select_ext,
}
use home_bench.Controller.Orchestrator.Run.Plan.{
  ladder, shown, Follows, acts-Follows, blocks-Follows, script_of_two, send_and_wait-Follows,
  ramp_steps-Follows, ramp_steps1-Follows, script_of_stage, script_of_end,
}

module _ {F : Type 0} ⦃f : Float64 F⦄ where
  -- The script of the stages, as run chooses them, without the software phases and with them.
  abbrev pub later_script : Config F → List (Phase × ℕ)
  later_script c =
      part (run_git c) Phase.git_clone
      ++ (part (run_untar c) Phase.untar
          ++ ((if (run_git c || run_untar c) then [] else [])
              ++ (part (phase_selected c Phase.create) Phase.create
                  ++ (part (phase_selected c Phase.delete) Phase.delete
                      ++ (part (phase_selected c Phase.write_bw) Phase.write_bw
                          ++ (part (phase_selected c Phase.read_bw) Phase.read_bw
                              ++ (part (phase_selected c Phase.read_write) Phase.read_write
                                  ++ (part (phase_selected c Phase.riops) Phase.riops
                                      ++ (part (phase_selected c Phase.final_delete)
                                            Phase.final_delete
                                          ++ [])))))))))

  abbrev script : Config F → List (Phase × ℕ)
  script c =
      (if run_software c
        then (Phase.software_unpack, 100)
          ∷ (Phase.software_cold, 100)
          ∷ (Phase.software_warm, 100)
          ∷ []
        else [])
      ++ later_script c

  pub later_stages-Follows :
      (ends : ℕ → Reply) (c : Config F) (n : ℕ)
      → Follows ends (through (later_stages ends c n)) (later_script c)
  unfolding later_stages run_software_phase run_controller_git_bundle run_controller_untar_archive
      cleanup_software send_final_cleanup run_ramp run_ramp2
  later_stages-Follows ends c n =
      script_of_stage ends (run_git c) _
        (script_of_two ends _ _ ((Phase.git_clone, 100) ∷ []) ((Phase.git_clone, 100) ∷ [])
          (blocks-Follows ends _) (blocks-Follows ends _))
        (script_of_stage ends (run_untar c) _
          (script_of_two ends _ _ ((Phase.untar, 100) ∷ []) ((Phase.untar, 100) ∷ [])
            (blocks-Follows ends _) (blocks-Follows ends _))
          (script_of_stage ends (run_git c || run_untar c) _ (acts-Follows ends _) (
            script_of_stage ends (phase_selected c Phase.create) _
              (ramp_steps1-Follows ends c Phase.create ramp_percents _ _ _)
              (script_of_stage ends (phase_selected c Phase.delete) _
                (script_of_two ends _ _ (ladder Phase.delete ramp_percents)
                  ((Phase.delete, 100) ∷ [])
                  (ramp_steps1-Follows ends c Phase.delete ramp_percents _ _ _)
                  (send_and_wait-Follows ends c Phase.delete 100 _ _ _ _))
                (script_of_stage ends (phase_selected c Phase.write_bw) _
                  (ramp_steps1-Follows ends c Phase.write_bw ramp_percents _ _ _)
                  (script_of_stage ends (phase_selected c Phase.read_bw) _
                    (ramp_steps1-Follows ends c Phase.read_bw ramp_percents _ _ _)
                    (script_of_stage ends (phase_selected c Phase.read_write) _
                      (ramp_steps-Follows ends c Phase.read_write ramp_percents _ _ _ _)
                      (script_of_stage ends (phase_selected c Phase.riops) _
                        (send_and_wait-Follows ends c Phase.riops 100 _ _ _ _)
                        (script_of_stage ends (phase_selected c Phase.final_delete) _
                          (script_of_two ends _ _ (ladder Phase.final_delete ramp_percents)
                            ((Phase.final_delete, 100) ∷ [])
                            (ramp_steps1-Follows ends c Phase.final_delete ramp_percents _ _ _)
                            (blocks-Follows ends _))
                          (script_of_end ends))))))))))

  stages-Follows :
      (ends : ℕ → Reply) (c : Config F) (n : ℕ)
      → Follows ends (through (stages ends c n)) (script c)
  unfolding stages software_stage run_software_phase run_controller_unpack cleanup_software
  stages-Follows ends c n =
      script_of_stage ends (run_software c) _
        (script_of_two ends _ _
          ((Phase.software_unpack, 100)
            ∷ (Phase.software_cold, 100)
            ∷ (Phase.software_warm, 100)
            ∷ [])
          []
          (script_of_two ends _ _ ((Phase.software_unpack, 100) ∷ (Phase.software_cold, 100) ∷ [])
            ((Phase.software_warm, 100) ∷ [])
            (script_of_two ends _ _ ((Phase.software_unpack, 100) ∷ [])
              ((Phase.software_cold, 100) ∷ []) (blocks-Follows ends _) (blocks-Follows ends _))
            (blocks-Follows ends _))
          (acts-Follows ends _))
        (later_stages-Follows ends c n)

  -- A phase of every plan is selected unless it is disabled.
  selected_fixed :
      (c : Config F) (p : Phase)
      → contains p phase_order ≡ true
      → phase_selected c p ≡ not (phase_disabled c p)
  unfolding phase_selected effective_phase_order
  selected_fixed c p h = ground (
    arith,
    h,
    contains-append p
        (if software_enabled c
          then Phase.software_unpack ∷ Phase.software_cold ∷ Phase.software_warm ∷ []
          else [])
        ((if git_clone_enabled c then Phase.git_clone ∷ [] else [])
          ++ ((if untar_enabled c then Phase.untar ∷ [] else []) ++ phase_order)),
    contains-append p (if git_clone_enabled c then Phase.git_clone ∷ [] else [])
        ((if untar_enabled c then Phase.untar ∷ [] else []) ++ phase_order),
    contains-append p (if untar_enabled c then Phase.untar ∷ [] else []) phase_order,
  )

  run_software_lem :
      (c : Config F)
      → run_software c ≡ (software_enabled c && not (phase_disabled c Phase.software_cold))
  unfolding run_software phase_selected effective_phase_order contains phase_beq list_beq
  run_software_lem c = elim (Bool-cases (software_enabled c)) [
    | inl h ↦ rw h refl
    | inr h ↦ rw h refl
  ]

  run_git_lem :
      (c : Config F) → run_git c ≡ (git_clone_enabled c && not (phase_disabled c Phase.git_clone))
  unfolding run_git phase_selected effective_phase_order contains phase_beq list_beq
  run_git_lem c = elim (Bool-cases (git_clone_enabled c)) [
    | inl h ↦ elim (Bool-cases (software_enabled c)) [
      | inl k ↦ rw (h, k) refl
      | inr k ↦ rw (h, k) refl
    ]
    | inr h ↦ rw h refl
  ]

  run_untar_lem :
      (c : Config F) → run_untar c ≡ (untar_enabled c && not (phase_disabled c Phase.untar))
  unfolding run_untar phase_selected effective_phase_order contains phase_beq list_beq
  run_untar_lem c = elim (Bool-cases (untar_enabled c)) [
    | inl h ↦ elim (Bool-cases (git_clone_enabled c)) [
      | inl g ↦ elim (Bool-cases (software_enabled c)) [
        | inl k ↦ rw (h, g, k) refl
        | inr k ↦ rw (h, g, k) refl
      ]
      | inr g ↦ elim (Bool-cases (software_enabled c)) [
        | inl k ↦ rw (h, g, k) refl
        | inr k ↦ rw (h, g, k) refl
      ]
    ]
    | inr h ↦ rw h refl
  ]

  -- What the plan of the configuration shows, under a choice of phases.
  visits_plan :
      (sel : Phase → Bool) (c : Config F)
      → sel Phase.software_unpack ≡ sel Phase.software_cold
      → sel Phase.software_warm ≡ sel Phase.software_cold
      → visits (select sel (effective_phase_order c))
        ≡ (if software_enabled c && sel Phase.software_cold
            then (Phase.software_unpack, 100)
              ∷ (Phase.software_cold, 100)
              ∷ (Phase.software_warm, 100)
              ∷ []
            else [])
          ++ (part (git_clone_enabled c && sel Phase.git_clone) Phase.git_clone
              ++ (part (untar_enabled c && sel Phase.untar) Phase.untar
                  ++ visits (select sel phase_order)))
  unfolding effective_phase_order
  visits_plan sel c h k =
      rw
        (
          visits-select_append sel
              (if software_enabled c
                then Phase.software_unpack ∷ Phase.software_cold ∷ Phase.software_warm ∷ []
                else [])
              ((if git_clone_enabled c then Phase.git_clone ∷ [] else [])
                ++ ((if untar_enabled c then Phase.untar ∷ [] else []) ++ phase_order)),
          visits_software sel (software_enabled c) h k,
          visits-select_append sel (if git_clone_enabled c then Phase.git_clone ∷ [] else [])
              ((if untar_enabled c then Phase.untar ∷ [] else []) ++ phase_order),
          visits_optional sel (git_clone_enabled c) Phase.git_clone,
          visits-select_append sel (if untar_enabled c then Phase.untar ∷ [] else []) phase_order,
          visits_optional sel (untar_enabled c) Phase.untar,
        )
        refl

  -- The script follows the plan, if the configuration is normalised.
  script_lem :
      (c : Config F)
      → visits (active_phase_order (normalize_disabled_phases c))
        ≡ script (normalize_disabled_phases c)
  unfolding active_phase_order contains toggle_group phase_beq list_beq
  script_lem c =
      let n : Config F = normalize_disabled_phases c in
      let sel : Phase → Bool = λ p. not (phase_disabled n p) in
      rw
        (
          effective_phase_order-normalize n,
          select_ext (λ p. not (phase_disabled (normalize_disabled_phases n) p)) sel
              (λ p. ap not (normalize_idempotent c p)) (effective_phase_order n),
          visits_plan sel n
              (ap not (phase_disabled-same_group c Phase.software_unpack Phase.software_cold refl))
              (ap not (phase_disabled-same_group c Phase.software_warm Phase.software_cold refl)),
          visits_fixed sel,
          nothing (run_git n || run_untar n),
          run_software_lem n,
          run_git_lem n,
          run_untar_lem n,
          selected_fixed n Phase.create refl,
          selected_fixed n Phase.delete refl,
          selected_fixed n Phase.write_bw refl,
          selected_fixed n Phase.read_bw refl,
          selected_fixed n Phase.read_write refl,
          selected_fixed n Phase.riops refl,
          selected_fixed n Phase.final_delete refl,
        )
        refl

  -- Whatever its calls reply, a run of a normalised configuration shows an initial part of what the
  -- phases of ActivePhaseOrder show, in their order; if it does not return early it shows all of
  -- it, and if all its calls go on it does not return early.
  pub run_follows_plan :
      (ends : ℕ → Reply) (c : Config F) (n : ℕ)
      → ((rest : List (Phase × ℕ)) × (shown (run ends (normalize_disabled_phases c) n).log ++ rest
            ≡ visits (active_phase_order (normalize_disabled_phases c)))
          × ((run ends (normalize_disabled_phases c) n).going ≡ true → rest ≡ []))
        × (((i : ℕ) → ends i ≡ done) → (run ends (normalize_disabled_phases c) n).going ≡ true)
  unfolding run
  run_follows_plan ends c n =
      let follows = stages-Follows ends (normalize_disabled_phases c) n in
      let (begun, rest, e, w, g) = follows.shows_part fresh refl in
      ((rest, rw (script_lem c, e) w, g), λ all. follows.goes_on all fresh refl)
