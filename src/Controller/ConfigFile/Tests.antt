-- ===== src/Controller/ConfigFile/Tests.antt =====
-- The configuration file, concretely.
use home_bench.Base.{
  ℕ, ◌≡◌, refl, true, false, [], ◌∷◌, Option, some, Text, codes, nat_eq, list_eq, list_beq, lookup,
  All, whole_floats,
}
use home_bench.Protocol.Phase.{Phase}
use home_bench.Protocol.Config.{Config, phase_disabled}
use home_bench.Controller.Registry.{new_registry}
use home_bench.Controller.Orchestrator.State.{Orchestrator, broadcast, save_config, config_msg}
use home_bench.Controller.Orchestrator.Settings.{set_config, checked_config}
use home_bench.Controller.Orchestrator.Lifecycle.{new_orchestrator}
use home_bench.Controller.ConfigFile.{Files, Calls, last_state, save_config_file, initial_config}
use home_bench.Controller.ConfigFile.Atomic.{Replaced, save_config_file_replaces}
use home_bench.Controller.ConfigFile.Restart.{but_phases, set_config_survives}

abbrev plain : Config ℕ
plain = record {
  test_name = codes "t";
  prefixes = codes "/p" ∷ [];
  file_creation_rate = 1;
  file_deletion_rate = 1;
  file_write_bandwidth = 1;
  file_read_bandwidth = 1;
  phase_step_seconds = 1;
  random_write_iops = 1;
  random_read_iops = 1;
  package_url = codes "u";
  startup_command = [];
  git_clone_url = [];
  untar_url = [];
  disabled_phases = [];
}

-- An encoder and a decoder that know the configuration with that test's name, and another.
abbrev encode : Config ℕ → Option Text
encode c = some c.test_name

abbrev old_text : Text
old_text = codes "old"

-- A disk with an older file; the file's name is "c".
abbrev old_disk : Files
old_disk = (codes "c", old_text) ∷ (codes "other", codes "x") ∷ []

abbrev all_well : Calls
all_well = record {
  dir_made = true;
  write = record { partials = [] ∷ []; complete = true };
  renamed = true;
}

abbrev at_rest : Orchestrator ℕ
at_rest = new_orchestrator plain new_registry (codes "c")

-- A decoder that takes what was written for what SetConfig stores.
abbrev decode : Text → Option (Config ℕ)
decode text = some (set_config plain at_rest).after.cfg

-- The write stops in the middle.
abbrev disk_full : Calls
disk_full = record all_well { write = record { partials = [] ∷ codes "t" ∷ []; complete = false } }

save_config_file_replaces_example :
    All
      (λ d.
        Replaced encode plain (codes "c") old_disk d
        × (lookup (codes "other") d ≡ lookup (codes "other") old_disk))
      (save_config_file encode decode disk_full (codes "c") plain old_disk).states
unfolding list_beq
save_config_file_replaces_example =
    save_config_file_replaces (codes "c") old_disk encode decode disk_full plain (codes "other")
      refl refl

abbrev saved_disk : Files
saved_disk =
    last_state old_disk
      (save_config_file encode decode all_well (codes "c") (set_config plain at_rest).after.cfg
        old_disk).states

abbrev restarted : Orchestrator ℕ
restarted =
    new_orchestrator (initial_config encode decode true all_well (codes "c") saved_disk).0
      new_registry (codes "c")

set_config_survives_example :
    ((set_config plain at_rest).effects
      ≡ broadcast (config_msg (set_config plain at_rest).after.cfg)
        ∷ save_config (codes "c") (set_config plain at_rest).after.cfg
        ∷ [])
    × (phase_disabled restarted.cfg Phase.create
        ≡ phase_disabled (set_config plain at_rest).after.cfg Phase.create)
    × (but_phases restarted.cfg ≡ but_phases (set_config plain at_rest).after.cfg)
unfolding list_beq save_config_file set_config checked_config new_orchestrator
set_config_survives_example =
    set_config_survives encode decode plain at_rest old_disk all_well all_well new_registry
      Phase.create refl refl refl (λ text e. refl)
