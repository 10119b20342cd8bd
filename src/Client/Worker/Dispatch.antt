-- ===== src/Client/Worker/Dispatch.antt =====
-- The phases that a client serves (internal/client/worker.go), and those of the controller's plan.
use home_bench.Base.{
  ◌≡◌, ◌≢◌, refl, ◌⊎◌, inl, inr, Bool, not, List, if_elim, All, All-append, All-select, arith,
}
use home_bench.Protocol.Phase.{Phase}
use home_bench.Protocol.Config.{
  Config, effective_phase_order, active_phase_order, normalize_disabled_phases, phase_disabled,
  software_enabled, git_clone_enabled, untar_enabled, phase_order,
}
use home_bench.Client.Worker.{task_of, unknown_phase}

-- A client has a task for the phase, or the controller runs it itself.
abbrev pub IsServed : Bool → Phase → Type 0
IsServed force p = (p ≡ Phase.software_unpack) ⊎ (task_of p force ≢ unknown_phase)

fixed-IsServed : (force : Bool) → All (IsServed force) phase_order
unfolding task_of
fixed-IsServed force = (
  inr (λ h. cc),
  (
    inr (λ h. cc),
    (
      inr (λ h. cc),
      (inr (λ h. cc), (inr (λ h. cc), (inr (λ h. cc), (inr (λ h. ground (arith, h)), tt)))),
    ),
  ),
)

module _ {F : Type 0} (force : Bool) where
  plan-IsServed : (c : Config F) → All (IsServed force) (effective_phase_order c)
  unfolding effective_phase_order task_of
  plan-IsServed c =
      let P : List Phase → Type 0 = All (IsServed force) in
      All-append (IsServed force) _ _
        (if_elim P (software_enabled c) (λ _. (inl refl, (inr (λ h. cc), (inr (λ h. cc), tt))))
          (λ _. tt))
        (All-append (IsServed force) _ _
          (if_elim P (git_clone_enabled c) (λ _. (inr (λ h. cc), tt)) (λ _. tt))
          (All-append (IsServed force) _ _
            (if_elim P (untar_enabled c) (λ _. (inr (λ h. cc), tt)) (λ _. tt))
            (fixed-IsServed force)))

  -- Whatever the configuration: of the phases that the controller plans to run, a client's worker has a
  -- task for each, and never answers "unknown phase", but for the unpacking, which the controller does.
  active_phase_order-IsServed : (c : Config F) → All (IsServed force) (active_phase_order c)
  unfolding active_phase_order
  active_phase_order-IsServed c =
      let cfg = normalize_disabled_phases c in
      All-select (IsServed force) (λ p. not (phase_disabled cfg p)) (effective_phase_order cfg)
        (plan-IsServed cfg)
