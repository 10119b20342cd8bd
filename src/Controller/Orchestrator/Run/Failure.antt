-- ===== src/Controller/Orchestrator/Run/Failure.antt =====
-- A run whose preparation fails (internal/controller/orchestrator.go).
use home_bench.Base.{ℕ, ◌≡◌, refl, ◌∙◌, ap, true, false, [], ◌∷◌, codes, Float64}
use home_bench.Protocol.Phase.{Phase, phase_label, phase_eq}
use home_bench.Protocol.Config.{Config}
use home_bench.Controller.Orchestrator.Run.{
  Reply, failed, is_done, acts, blocks, shows, unpacks, Progress, when,
}
use home_bench.Controller.Orchestrator.Run.Stages.{
  stages, later_stages, software_stage, run, fresh, finish_text, through, run_software,
  run_software_phase, run_controller_unpack, cleanup_software,
}
use home_bench.Controller.Orchestrator.Run.Plan.{shown}
use home_bench.Controller.Orchestrator.Run.Completion.{later_stages-Follows}

module _ {F : Type 0} ⦃f : Float64 F⦄ where
  -- The state of a run whose first step has failed.
  abbrev unpack_failed : Config F → Progress F
  unpack_failed c = record {
    log = shows Phase.software_unpack 100 (phase_label Phase.software_unpack) ∷ unpacks c ∷ [];
    stage = 1;
    going = false;
    last = failed;
  }

  software_stage_failed :
      (ends : ℕ → Reply) (c : Config F)
      → run_software c ≡ true
      → ends 0 ≡ failed
      → when (run_software c) (software_stage ends c) fresh ≡ unpack_failed c
  unfolding when software_stage run_software_phase run_controller_unpack cleanup_software acts
      blocks is_done
  software_stage_failed ends c h k = rw h (rw k refl)

  run_failed :
      (ends : ℕ → Reply) (c : Config F) (n : ℕ)
      → run_software c ≡ true
      → ends 0 ≡ failed
      → run ends c n ≡ unpack_failed c
  unfolding run stages through
  run_failed ends c n h k =
      ap (through (later_stages ends c n)) (software_stage_failed ends c h k)
      ∙ (later_stages-Follows ends c n).returned (unpack_failed c) refl

  -- If the controller cannot unpack the package, the run ends after that step, and where no
  -- participant was lost and nobody cancelled the run, it finishes with the text of success.
  failed_unpack_completes :
      (ends : ℕ → Reply) (c : Config F) (n : ℕ)
      → run_software c ≡ true
      → ends 0 ≡ failed
      → (shown (run ends c n).log ≡ (Phase.software_unpack, 100) ∷ [])
        × (finish_text false false (run ends c n) ≡ codes "Completed")
  unfolding finish_text
  failed_unpack_completes ends c n h k = rw (run_failed ends c n h k) (refl, refl)
