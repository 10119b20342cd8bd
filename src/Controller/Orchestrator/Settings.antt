-- ===== src/Controller/Orchestrator/Settings.antt =====
-- internal/controller/orchestrator.go: SetConfig and SetPhaseEnabled.
pub mod Phases
use home_bench.Base.{
  ℕ, Bool, true, false, not, ◌&&◌, ◌||◌, List, [], ◌∷◌, ◌++◌, Option, none, some, Text, codes, ◌==◌,
  nat_eq, list_eq, if◌then◌else◌, length, take, drop, select, contains, add, remove, add_all,
  Float64,
}
use home_bench.Protocol.Phase.{Phase, phase_eq, toggle_group}
use home_bench.Protocol.Config.{
  Config, has_text, effective_phase_order, normalize_disabled_phases, active_phase_order,
}
use home_bench.Controller.Registry.{reassign_prefixes}
use home_bench.Controller.Orchestrator.State.{
  Orchestrator, Effect, broadcast, save_config, Message, config_msg, Refusal, config_locked,
  phases_locked, test_name_required, prefix_required, rates_not_positive, bandwidth_not_positive,
  iops_negative, step_too_short, last_phase, phase_not_in_plan, Outcome,
}

-- DefaultPackageURL
abbrev pub default_package_url : Text
default_package_url =
    codes "https://root.cern/download/root_v6.40.02.Linux-almalinux9.8-x86_64-gcc11.5.tar.gz"

-- The group is in the plan: the double loop of SetPhaseEnabled.
group_in_plan : List Phase → List Phase → Bool
group_in_plan group [] = false
group_in_plan group (p ∷ plan) = contains p group || group_in_plan group plan

-- The loop that enables or disables each phase of the group.
toggle_all : Bool → List Phase → List Phase → List Phase
toggle_all enabled [] disabled = disabled
toggle_all enabled (g ∷ gs) disabled =
    toggle_all enabled gs (if enabled then remove g disabled else add g disabled)

-- What a slice shows after `append(old[:0], new...)`: the new entries overwrite the old ones in the
-- array that the two slices share, as far as the old slice reaches.
unfoldable pub overwritten {ℓ} : {A : Type ℓ} → List A → List A → List A
overwritten new old = take (length old) new ++ drop (length new) old

module _ {F : Type 0} where
  refuse : Orchestrator F → Refusal → Outcome F
  refuse o e = record { after = o; effects = []; error = some e }

  -- The file is written only if a path is configured.
  saves : Orchestrator F → Config F → List (Effect F)
  saves o c = if o.config_path == [] then [] else save_config o.config_path c ∷ []

  module _ ⦃f : Float64 F⦄ where
    -- The checks of SetConfig in their order, the defaults that it fills in among them.
    unfoldable pub checked_config : Config F → Option Refusal
    checked_config c =
        if c.test_name == []
        then some test_name_required
        else if length c.prefixes == 0
        then some prefix_required
        else if f.fle c.file_creation_rate (f.of_ℕ 0) || f.fle c.file_deletion_rate (f.of_ℕ 0)
        then some rates_not_positive
        else if f.fle c.file_write_bandwidth (f.of_ℕ 0) || f.fle c.file_read_bandwidth (f.of_ℕ 0)
        then some bandwidth_not_positive
        else if f.flt c.random_write_iops (f.of_ℕ 0) || f.flt c.random_read_iops (f.of_ℕ 0)
        then some iops_negative
        else if f.fle c.phase_step_seconds (f.of_ℕ 0)
        then (if f.flt (f.of_ℕ 30) (f.of_ℕ 1) then some step_too_short else none)
        else if f.flt c.phase_step_seconds (f.of_ℕ 1)
        then some step_too_short
        else none

    unfoldable pub filled_config : Config F → Config F
    filled_config c = normalize_disabled_phases (record c {
      phase_step_seconds =
          if f.fle c.phase_step_seconds (f.of_ℕ 0) then f.of_ℕ 30 else c.phase_step_seconds;
      package_url = if not (has_text c.package_url) then default_package_url else c.package_url;
    })

    -- SetConfig
    unfoldable pub set_config : Config F → Orchestrator F → Outcome F
    unfolding refuse saves
    set_config c o = elim (checked_config c) [
      | some e ↦ refuse o e
      | none ↦
          let c' = filled_config c in
          if o.running then refuse o config_locked else record {
            after = record o { cfg = c'; registry = reassign_prefixes c'.prefixes o.registry };
            effects = broadcast (config_msg c') ∷ saves o c';
            error = none;
          }
    ]

  -- The disabled phases that SetPhaseEnabled writes, before they are normalised.
  unfoldable pub toggled : Phase → Bool → Config F → List Phase
  unfolding toggle_all
  toggled phase enabled c =
      let disabled = toggle_all enabled (toggle_group phase) (add_all c.disabled_phases []) in
      select (λ p. contains p disabled) (effective_phase_order c)

  -- SetPhaseEnabled. Where it fails for the last phase, the slice of the stored configuration has
  -- been overwritten through the copy.
  unfoldable pub set_phase_enabled : Phase → Bool → Orchestrator F → Outcome F
  unfolding refuse saves group_in_plan
  set_phase_enabled phase enabled o =
      let written = toggled phase enabled o.cfg in
      let c = normalize_disabled_phases (record (o.cfg) { disabled_phases = written }) in
      let damaged = record (o.cfg) {
        disabled_phases = overwritten written o.cfg.disabled_phases;
      } in
      if o.running
      then refuse o phases_locked
      else if not (group_in_plan (toggle_group phase) (effective_phase_order o.cfg))
      then refuse o (phase_not_in_plan phase)
      else if length (active_phase_order c) == 0
      then refuse (record o { cfg = damaged }) last_phase
      else record {
        after = record o { cfg = c };
        effects = broadcast (config_msg c) ∷ saves o c;
        error = none;
      }
