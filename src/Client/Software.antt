-- ===== src/Client/Software.antt =====
-- internal/client/software.go: the startup, git clone and untar phases, and the quoting of their shell
-- commands. What the file system, the shell and the clock come to is an argument.
pub mod Accounted
pub mod Quoting
mod Tests
use home_bench.Base.{
  ℕ, ◌*◌, Bool, true, false, not, List, [], ◌∷◌, ◌++◌, Text, codes, trim_space, ◌==◌, nat_eq,
  list_eq, if◌then◌else◌, Float64,
}
use home_bench.Protocol.Interval.{second}
use home_bench.Client.Stats.{
  Stats, add_to, git_clones, untars, observe_startup_cold, observe_startup_cold_failure,
  observe_startup_warm, observe_startup_warm_failure, observe_git_clone, observe_git_clone_failure,
  observe_untar, observe_untar_failure,
}

-- SoftwareStartupColdTimeout and SoftwareStartupWarmTimeout
abbrev pub startup_timeout : Bool → ℕ
startup_timeout cold = if cold then 600 * second else 300 * second

-- The time that a startup is given, from the command's duration in nanoseconds, which may be 0.
unfoldable pub timeout_of : Bool → ℕ → ℕ
timeout_of cold asked = if asked == 0 then startup_timeout cold else asked

-- `strings.ReplaceAll(s, "'", ...)`
unfoldable pub replace_quotes : Text → Text
replace_quotes [] = []
replace_quotes (c ∷ s) =
    (if c == b'\'' then b'\'' ∷ b'"' ∷ b'\'' ∷ b'"' ∷ b'\'' ∷ [] else c ∷ []) ++ replace_quotes s

-- shellQuote
unfoldable pub shell_quote : Text → Text
unfolding replace_quotes
shell_quote s = b'\'' ∷ (replace_quotes s ++ (b'\'' ∷ []))

-- What was done to the work directory.
pub data DirCall : Type 0 where
  remove_all mkdir_all : DirCall
  shell : Text → DirCall

-- How a phase ends that works in a directory: `ok` where it returns nil.
pub record Worked (F : Type 0) : Type 0 where
  pub stats : Stats F
  pub ok : Bool
  pub calls : List DirCall

module _ {F : Type 0} ⦃f : Float64 F⦄ where
  unfoldable pub startup_failed : Bool → Stats F → Stats F
  startup_failed cold s =
      if cold then observe_startup_cold_failure s else observe_startup_warm_failure s

  unfoldable pub startup_done : Bool → ℕ → Stats F → Stats F
  startup_done cold elapsed s =
      if cold then observe_startup_cold elapsed s else observe_startup_warm elapsed s

  -- runSoftwareStartup, and whether it returned nil. `runs` takes the timeout and the command, and
  -- returns whether it was successful and how long it took.
  unfoldable pub run_software_startup :
      (ℕ → Text → Bool × ℕ) → Bool → ℕ → Text → Bool → Stats F → Stats F × Bool
  unfolding startup_failed startup_done
  run_software_startup runs dir_there asked command cold s =
      let startup = trim_space command in
      let result = runs (timeout_of cold asked) startup in
      if not dir_there
      then (startup_failed cold s, false)
      else if startup == []
      then (startup_failed cold s, false)
      else if not result.0
      then (startup_failed cold s, false)
      else (startup_done cold result.1 s, true)

  -- The common steps of runGitClone and runUntar, once their archive is known to be there: the work
  -- directory is cleared and made, the command is timed in it, its files are counted, and the directory
  -- is removed. `runs` takes the command, and returns whether it was successful, how long it took, and
  -- countRegularFiles of the directory.
  unfoldable pub work_in_dir :
      (Text → Bool × ℕ × ℕ)
      → Bool
      → Bool
      → Text
      → (Stats F → Stats F)
      → (ℕ → ℕ → Stats F → Stats F)
      → Stats F
      → Worked F
  work_in_dir runs cleared made command fail done s =
      let result = runs command in
      let calls = remove_all ∷ mkdir_all ∷ shell command ∷ remove_all ∷ [] in
      if not cleared
      then record { stats = fail s; ok = false; calls = remove_all ∷ [] }
      else if not made
      then record { stats = fail s; ok = false; calls = remove_all ∷ mkdir_all ∷ [] }
      else if not result.0
      then record { stats = fail s; ok = false; calls = calls }
      else record { stats = done result.1 result.2 s; ok = true; calls = calls }

  -- runGitClone
  unfoldable pub run_git_clone :
      (Text → Bool × ℕ × ℕ) → Bool → Text → Bool → Bool → Stats F → Worked F
  unfolding work_in_dir
  run_git_clone runs bundle_there bundle cleared made s =
      if not bundle_there
      then record { stats = observe_git_clone_failure s; ok = false; calls = [] }
      else work_in_dir runs cleared made
          (codes "git clone " ++ (shell_quote bundle ++ codes " repo")) observe_git_clone_failure
          (λ elapsed files r. observe_git_clone elapsed (add_to git_clones files r)) s

  -- runUntar
  unfoldable pub run_untar :
      (Text → Bool × ℕ × ℕ) → Text → Bool → Text → Bool → Bool → Stats F → Worked F
  unfolding work_in_dir
  run_untar runs url archive_there archive cleared made s =
      if trim_space url == []
      then record { stats = observe_untar_failure s; ok = false; calls = [] }
      else if not archive_there
      then record { stats = observe_untar_failure s; ok = false; calls = [] }
      else work_in_dir runs cleared made (codes "tar xvf " ++ shell_quote archive)
          observe_untar_failure (λ elapsed files r. observe_untar elapsed (add_to untars files r)) s
