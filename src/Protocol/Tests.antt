-- ===== src/Protocol/Tests.antt =====
-- Runs of the protocol's functions on concrete configurations, and its theorems at such inputs.
use home_bench.Base.{
  ℕ, ◌≡◌, refl, ◌&&◌, [], ◌∷◌, codes, nat_eq, list_eq, list_beq, trim_space, to_lower, decimal,
  contains, add, Distinct,
}
use home_bench.Protocol.Phase.{
  phase_eq, phase_beq, toggle_group, software_unpack, software_cold, software_warm, create, delete,
  idle,
}
use home_bench.Protocol.Config.{
  Config, effective_phase_order, phase_disabled, normalize_disabled_phases, software_enabled,
  git_clone_enabled, untar_enabled, has_text,
}
use home_bench.Protocol.Config.Normalize.{in_some_group, phase_disabled-normalize}
use home_bench.Protocol.Prefix.{fnv_sum32a}

trims : trim_space (codes " \t host 1 \n") ≡ codes "host 1"
unfolding trim_space
trims = refl

lowers : to_lower (codes "First_N") ≡ codes "first_n"
unfolding to_lower
lowers = refl

prints : decimal 1024 ≡ codes "1024"
unfolding decimal
prints = refl

-- The published FNV-1a test vector for "foobar".
hashes : fnv_sum32a (codes "foobar") ≡ 0xbf9cf968
unfolding fnv_sum32a
hashes = refl

-- The software phases are on, git and untar are off.
abbrev pub sample : Config ℕ
sample = record {
  test_name = codes "bench1";
  prefixes = codes "/a" ∷ codes "/b" ∷ [];
  file_creation_rate = 1000;
  file_deletion_rate = 1000;
  file_write_bandwidth = 500;
  file_read_bandwidth = 500;
  phase_step_seconds = 30;
  random_write_iops = 0;
  random_read_iops = 0;
  package_url = codes "http://x/p.tgz";
  startup_command = codes "run";
  git_clone_url = codes " ";
  untar_url = [];
  disabled_phases = software_warm ∷ delete ∷ idle ∷ delete ∷ [];
}

normalizes :
    (normalize_disabled_phases sample).disabled_phases
    ≡ software_unpack ∷ software_cold ∷ software_warm ∷ create ∷ delete ∷ []
unfolding normalize_disabled_phases effective_phase_order software_enabled git_clone_enabled
    untar_enabled has_text trim_space list_beq contains add phase_beq toggle_group
normalizes = refl

phase_disabled-normalize_example :
    (phase_disabled (normalize_disabled_phases sample) create ≡ (
      contains create (effective_phase_order sample)
      && in_some_group create sample.disabled_phases))
    × Distinct (normalize_disabled_phases sample).disabled_phases
phase_disabled-normalize_example = phase_disabled-normalize sample create
