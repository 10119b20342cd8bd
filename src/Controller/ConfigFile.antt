-- ===== src/Controller/ConfigFile.antt =====
-- internal/controller/configfile.go: the configuration on the disk, and the part of NewOrchestrator that
-- reads it. The disk is a map from paths to contents; encoding/json, and which calls of the operating
-- system fail, are arguments.
pub mod Atomic
pub mod Restart
mod Tests
use home_bench.Base.{
  ℕ, ◌*◌, Bool, true, false, not, List, [], ◌∷◌, ◌++◌, map, Option, none, some, Text, codes, ◌==◌,
  nat_eq, list_eq, if◌then◌else◌, lookup, insert, delete, Float64,
}
use home_bench.Protocol.Config.{Config}
use home_bench.Controller.Orchestrator.Settings.{default_package_url}

abbrev pub Files : Type 0
Files = List (Text × Text)

-- What LoadConfigFile returns: the configuration, an error for which os.IsNotExist holds, or another.
pub data Loaded (F : Type 0) : Type 0 where
  loaded : Config F → Loaded F
  not_exist unreadable : Loaded F

-- How os.WriteFile goes: what the file holds meanwhile, from its creation on, and whether all was written.
pub record Write : Type 0 where
  pub partials : List Text
  pub complete : Bool

-- The calls of SaveConfigFile: whether os.MkdirAll is successful, or is not called, how os.WriteFile goes, and whether
-- os.Rename is successful.
pub record Calls : Type 0 where
  pub dir_made : Bool
  pub write : Write
  pub renamed : Bool

-- The states of the disk that the calls leave, in their order, and whether SaveConfigFile returns nil.
pub record Saved : Type 0 where
  pub states : List Files
  pub ok : Bool

abbrev pub temporary : Text → Text
temporary path = path ++ codes ".tmp"

-- os.Rename
unfoldable pub rename : Text → Text → Text → Files → Files
rename from to text disk = insert to text (delete from disk)

-- os.WriteFile and os.Rename of SaveConfigFile.
unfoldable pub write_and_rename : Calls → Text → Text → Files → Saved
unfolding rename
write_and_rename calls path text disk =
    let tmp = temporary path in
    let partial = map (λ t. insert tmp t disk) calls.write.partials in
    let whole = insert tmp text disk in
    if not calls.write.complete
    then record { states = partial; ok = false }
    else if not calls.renamed
    then record { states = partial ++ (whole ∷ []); ok = false }
    else record { states = partial ++ (whole ∷ rename tmp path text whole ∷ []); ok = true }

abbrev pub newline : Text
newline = 10 ∷ []

-- SaveConfigFile from what json.MarshalIndent returns.
unfoldable pub save_text : Calls → Text → Option Text → Files → Saved
unfolding write_and_rename
save_text calls path none disk = record { states = []; ok = false }
save_text calls path (some text) disk = write_and_rename calls path (text ++ newline) disk

-- The disk in the end.
abbrev pub last_state : Files → List Files → Files
last_state disk [] = disk
last_state disk (d ∷ ds) = last_state d ds

-- json.Unmarshal
unfoldable pub parsed : {F : Type 0} → Option (Config F) → Loaded F
parsed none = unreadable
parsed (some cfg) = loaded cfg

module _ {F : Type 0} ⦃f : Float64 F⦄ where
  -- DefaultConfig
  unfoldable pub default_config : Config F
  default_config = record {
    test_name = codes "bench1";
    prefixes = codes "/tmp/homebench" ∷ [];
    file_creation_rate = f.of_ℕ 1000;
    file_deletion_rate = f.of_ℕ 1000;
    file_write_bandwidth = f.of_ℕ (500 * 1024 * 1024);
    file_read_bandwidth = f.of_ℕ (500 * 1024 * 1024);
    phase_step_seconds = f.of_ℕ 30;
    random_write_iops = f.of_ℕ 0;
    random_read_iops = f.of_ℕ 0;
    package_url = default_package_url;
    startup_command = codes ". root/bin/thisroot.sh; root -b -q";
    git_clone_url = codes "https://github.com/cern-eos/eos.git";
    untar_url = codes "https://xrootd.web.cern.ch/download/v6.1.1/xrootd-6.1.1.tar.gz";
    disabled_phases = [];
  }

module _ {F : Type 0} (encode : Config F → Option Text) (decode : Text → Option (Config F)) where
  -- LoadConfigFile; `readable` says that os.ReadFile does not fail on a file that is there.
  unfoldable pub load_config_file : Bool → Text → Files → Loaded F
  unfolding parsed
  load_config_file readable path disk = elim (lookup path disk) [
    | none ↦ not_exist
    | some text ↦ if readable then parsed (decode text) else unreadable
  ]

  -- SaveConfigFile
  unfoldable pub save_config_file : Calls → Text → Config F → Files → Saved
  unfolding save_text
  save_config_file calls path cfg disk =
      if not calls.dir_made
      then record { states = []; ok = false }
      else save_text calls path (encode cfg) disk

  -- What NewOrchestrator makes of the file: the configuration, and the disk.
  module _ ⦃f : Float64 F⦄ where
    unfoldable pub use_loaded : Calls → Text → Files → Loaded F → Config F × Files
    unfolding save_config_file default_config
    use_loaded calls path disk (loaded cfg) = (cfg, disk)
    use_loaded calls path disk not_exist =
        (default_config, last_state disk (save_config_file calls path default_config disk).states)
    use_loaded calls path disk unreadable = (default_config, disk)

    -- The start of NewOrchestrator.
    unfoldable pub initial_config : Bool → Calls → Text → Files → Config F × Files
    unfolding use_loaded load_config_file
    initial_config readable calls path disk =
        if path == []
        then (default_config, disk)
        else use_loaded calls path disk (load_config_file readable path disk)
