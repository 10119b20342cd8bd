-- ===== src/Protocol/Config.antt =====
-- internal/protocol/protocol.go: the configuration of a run and the phases that it selects.
-- A float64 field has the abstract type `F`.
pub mod Normalize
use home_bench.Base.{
  ℕ, ◌≡◌, Bool, true, false, not, ◌&&◌, List, [], ◌∷◌, ◌++◌, Text, codes, ◌==◌, nat_eq, list_eq,
  contains, add, trim_space, if◌then◌else◌, select,
}
use home_bench.Protocol.Phase.{Phase, phase_eq, toggle_group}
use home_bench.Protocol.Phase

pub record Config (F : Type 0) : Type 0 where
  pub test_name : Text
  pub prefixes : List Text
  pub file_creation_rate : F
  pub file_deletion_rate : F
  pub file_write_bandwidth : F
  pub file_read_bandwidth : F
  pub phase_step_seconds : F
  pub random_write_iops : F
  pub random_read_iops : F
  pub package_url : Text
  pub startup_command : Text
  pub git_clone_url : Text
  pub untar_url : Text
  pub disabled_phases : List Phase

-- strings.TrimSpace(s) != ""
unfoldable pub has_text : Text → Bool
has_text s = not (trim_space s == [])

-- PhaseOrder: the phases that every run has.
abbrev pub phase_order : List Phase
phase_order =
    Phase.create ∷ Phase.delete ∷ Phase.write_bw ∷ Phase.read_bw ∷ Phase.read_write ∷ Phase.riops
    ∷ Phase.final_delete ∷ []

-- The loop over the group of one disabled phase, with the map `seen` and the slice `out`.
norm_group : List Phase → List Phase → List Phase × List Phase → List Phase × List Phase
norm_group allowed [] (seen, out) = (seen, out)
norm_group allowed (g ∷ gs) (seen, out) = norm_group allowed gs (
    if not (contains g allowed)
    then (seen, out)
    else if contains g seen
    then (seen, out)
    else (add g seen, out ++ (g ∷ [])))

-- The loop over the disabled phases.
norm_phases : List Phase → List Phase → List Phase × List Phase → List Phase × List Phase
norm_phases allowed [] acc = acc
norm_phases allowed (p ∷ ps) acc = norm_phases allowed ps (norm_group allowed (toggle_group p) acc)

module _ {F : Type 0} where
  unfoldable pub software_enabled : Config F → Bool
  software_enabled c = has_text c.package_url && has_text c.startup_command

  unfoldable pub git_clone_enabled : Config F → Bool
  git_clone_enabled c = has_text c.git_clone_url

  unfoldable pub untar_enabled : Config F → Bool
  untar_enabled c = has_text c.untar_url

  -- EffectivePhaseOrder
  unfoldable pub effective_phase_order : Config F → List Phase
  effective_phase_order c =
      (if software_enabled c
        then Phase.software_unpack ∷ Phase.software_cold ∷ Phase.software_warm ∷ []
        else [])
      ++ ((if git_clone_enabled c then Phase.git_clone ∷ [] else [])
          ++ ((if untar_enabled c then Phase.untar ∷ [] else []) ++ phase_order))

  unfoldable pub phase_disabled : Config F → Phase → Bool
  phase_disabled c p = contains p c.disabled_phases

  unfoldable pub phase_selected : Config F → Phase → Bool
  phase_selected c p =
      if contains p (effective_phase_order c) then not (phase_disabled c p) else false

  unfoldable pub normalize_disabled_phases : Config F → Config F
  unfolding norm_phases norm_group
  normalize_disabled_phases c = record c {
    disabled_phases = (norm_phases (effective_phase_order c) c.disabled_phases ([], [])).1;
  }

  unfoldable pub active_phase_order : Config F → List Phase
  active_phase_order c =
      let cfg = normalize_disabled_phases c in
      select (λ p. not (phase_disabled cfg p)) (effective_phase_order cfg)
