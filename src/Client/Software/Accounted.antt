-- ===== src/Client/Software/Accounted.antt =====
-- What the software phases of internal/client/software.go count, and what they leave on the disk.
use home_bench.Base.{
  ℕ, ◌+◌, ◌%◌, ◌≡◌, refl, Bool, true, false, not, List, [], ◌∷◌, ◌++◌, Text, codes, trim_space,
  if◌then◌else◌, if_elim, arith, ◌==◌, nat_eq, list_eq, length, Float64,
}
use home_bench.Protocol.Latency.{
  LatencyHistogram, word, observe_us, observe_failure, ensure_counts, latency_bucket_count_for,
}
use home_bench.Client.Stats.{
  Stats, add_to, git_clones, untars, observe, observe_startup_cold, observe_startup_cold_failure,
  observe_startup_warm, observe_startup_warm_failure, observe_git_clone, observe_git_clone_failure,
  observe_untar, observe_untar_failure,
}
use home_bench.Client.Software.{
  DirCall, remove_all, mkdir_all, shell, Worked, timeout_of, shell_quote, startup_failed,
  startup_done, run_software_startup, work_in_dir, run_git_clone, run_untar,
}

-- Of a phase, one success or one failure was counted.
pub record IsAccounted {F : Type 0} (before after : LatencyHistogram F) (ok : Bool) : Type 0 where
  pub total : after.total % word ≡ (before.total + (if ok then 1 else 0)) % word
  pub failures : after.failures % word ≡ (before.failures + (if ok then 0 else 1)) % word

-- Nothing of a command's is left in the directory.
abbrev pub is_tidy : Bool → List DirCall → Bool
is_tidy dirty [] = not dirty
is_tidy dirty (remove_all ∷ calls) = is_tidy false calls
is_tidy dirty (mkdir_all ∷ calls) = is_tidy dirty calls
is_tidy dirty (shell c ∷ calls) = is_tidy true calls

-- The commands of a clone and of an extraction.
abbrev pub clone_command : Text → Text
clone_command bundle = codes "git clone " ++ (shell_quote bundle ++ codes " repo")

abbrev pub tar_command : Text → Text
tar_command archive = codes "tar xvf " ++ shell_quote archive

module _ {F : Type 0} ⦃f : Float64 F⦄ where
  ensure_counts_same :
      (h : LatencyHistogram F)
      → ((ensure_counts h).total ≡ h.total) × ((ensure_counts h).failures ≡ h.failures)
  unfolding ensure_counts
  ensure_counts_same h =
      if_elim (λ (k : LatencyHistogram F). (k.total ≡ h.total) × (k.failures ≡ h.failures))
        (length h.counts == latency_bucket_count_for h.scale) (λ _. (refl, refl))
        (λ _. (refl, refl))

  observe-IsAccounted : (d : ℕ) (h : LatencyHistogram F) → IsAccounted h (observe d h) true
  unfolding observe observe_us
  observe-IsAccounted d h = record {
    total = omega (arith, (ensure_counts_same h).0);
    failures = omega (arith, (ensure_counts_same h).1);
  }

  observe_failure-IsAccounted : (h : LatencyHistogram F) → IsAccounted h (observe_failure h) false
  unfolding observe_failure
  observe_failure-IsAccounted h = record { total = omega arith; failures = omega arith }

  -- A work phase counts its success or its failure once, adds the files of a success alone, and
  -- leaves no output of its command behind.
  pub record IsClosed (before after : LatencyHistogram F) (files_before files_after files : ℕ)
      (w : Worked F) : Type 0 where
    accounted : IsAccounted before after w.ok
    files_counted : files_after % word ≡ (files_before + (if w.ok then files else 0)) % word
    tidy : is_tidy false w.calls ≡ true

  work_in_dir-IsClosed :
      (h : Stats F → LatencyHistogram F) (count : Stats F → ℕ) (runs : Text → Bool × ℕ × ℕ)
      (cleared made : Bool) (command : Text) (fail : Stats F → Stats F)
      (done : ℕ → ℕ → Stats F → Stats F) (s : Stats F)
      → ((r : Stats F) → IsAccounted (h r) (h (fail r)) false × (count (fail r) ≡ count r))
      → ((d n : ℕ) (r : Stats F)
          → IsAccounted (h r) (h (done d n r)) true × (count (done d n r) ≡ (count r + n) % word))
      → IsClosed
          (h s)
          (h (work_in_dir runs cleared made command fail done s).stats)
          (count s)
          (count (work_in_dir runs cleared made command fail done s).stats)
          (runs command).2
          (work_in_dir runs cleared made command fail done s)
  unfolding work_in_dir
  work_in_dir-IsClosed h count runs cleared made command fail done s failing succeeding =
      let P : Worked F → Type 0 =
        λ w. IsClosed (h s) (h w.stats) (count s) (count w.stats) (runs command).2 w in
      let (missed, none_more) = failing s in
      let (hit, files_more) = succeeding (runs command).1 (runs command).2 s in
      if_elim P (not cleared)
        (λ _. record { accounted = missed; files_counted = omega (arith, none_more); tidy = refl })
        (λ _.
          if_elim P (not made)
            (λ _. record {
              accounted = missed;
              files_counted = omega (arith, none_more);
              tidy = refl;
            })
            (λ _.
              if_elim P (not (runs command).0)
                (λ _. record {
                  accounted = missed;
                  files_counted = omega (arith, none_more);
                  tidy = refl;
                })
                (λ _. record {
                  accounted = hit;
                  files_counted = omega (arith, files_more);
                  tidy = refl;
                })))

  run_git_clone-IsClosed :
      (runs : Text → Bool × ℕ × ℕ) (bundle_there : Bool) (bundle : Text) (cleared made : Bool)
      (s : Stats F)
      → IsClosed s.latencies.git_clone
          (run_git_clone runs bundle_there bundle cleared made s).stats.latencies.git_clone
          s.git_files
          (run_git_clone runs bundle_there bundle cleared made s).stats.git_files
          (runs (clone_command bundle)).2
          (run_git_clone runs bundle_there bundle cleared made s)
  unfolding run_git_clone observe_git_clone observe_git_clone_failure add_to
  run_git_clone-IsClosed runs bundle_there bundle cleared made s =
      if_elim
        (λ (w : Worked F).
          IsClosed s.latencies.git_clone w.stats.latencies.git_clone s.git_files w.stats.git_files
            (runs (clone_command bundle)).2 w)
        (not bundle_there)
        (λ _. record {
          accounted = observe_failure-IsAccounted s.latencies.git_clone;
          files_counted = omega arith;
          tidy = refl;
        })
        (λ _.
          work_in_dir-IsClosed (λ r. r.latencies.git_clone) (λ r. r.git_files) runs cleared made
            (clone_command bundle) observe_git_clone_failure
            (λ elapsed files r. observe_git_clone elapsed (add_to git_clones files r)) s
            (λ r. (observe_failure-IsAccounted r.latencies.git_clone, refl))
            (λ d n r. (observe-IsAccounted d r.latencies.git_clone, refl)))

  run_untar-IsClosed :
      (runs : Text → Bool × ℕ × ℕ) (url : Text) (archive_there : Bool) (archive : Text)
      (cleared made : Bool) (s : Stats F)
      → IsClosed s.latencies.untar
          (run_untar runs url archive_there archive cleared made s).stats.latencies.untar
          s.untar_files
          (run_untar runs url archive_there archive cleared made s).stats.untar_files
          (runs (tar_command archive)).2
          (run_untar runs url archive_there archive cleared made s)
  unfolding run_untar observe_untar observe_untar_failure add_to
  run_untar-IsClosed runs url archive_there archive cleared made s =
      let P : Worked F → Type 0 = λ w.
        IsClosed s.latencies.untar w.stats.latencies.untar s.untar_files w.stats.untar_files
          (runs (tar_command archive)).2 w in
      let missed : P (record { stats = observe_untar_failure s; ok = false; calls = [] }) = record {
        accounted = observe_failure-IsAccounted s.latencies.untar;
        files_counted = omega arith;
        tidy = refl;
      } in
      if_elim P (trim_space url == []) (λ _. missed)
        (λ _.
          if_elim P (not archive_there) (λ _. missed)
            (λ _.
              work_in_dir-IsClosed (λ r. r.latencies.untar) (λ r. r.untar_files) runs cleared made
                (tar_command archive) observe_untar_failure
                (λ elapsed files r. observe_untar elapsed (add_to untars files r)) s
                (λ r. (observe_failure-IsAccounted r.latencies.untar, refl))
                (λ d n r. (observe-IsAccounted d r.latencies.untar, refl))))

  -- The histogram of cold startups or of warm ones.
  abbrev pub startups : Bool → Stats F → LatencyHistogram F
  startups true s = s.latencies.startup_cold
  startups false s = s.latencies.startup_warm

  startup_failed-IsAccounted :
      (cold : Bool) (s : Stats F)
      → IsAccounted (startups cold s) (startups cold (startup_failed cold s)) false
  unfolding startup_failed observe_startup_cold_failure observe_startup_warm_failure
  startup_failed-IsAccounted true s = observe_failure-IsAccounted s.latencies.startup_cold
  startup_failed-IsAccounted false s = observe_failure-IsAccounted s.latencies.startup_warm

  startup_done-IsAccounted :
      (cold : Bool) (d : ℕ) (s : Stats F)
      → IsAccounted (startups cold s) (startups cold (startup_done cold d s)) true
  unfolding startup_done observe_startup_cold observe_startup_warm
  startup_done-IsAccounted true d s = observe-IsAccounted d s.latencies.startup_cold
  startup_done-IsAccounted false d s = observe-IsAccounted d s.latencies.startup_warm

  run_software_startup-IsAccounted :
      (runs : ℕ → Text → Bool × ℕ) (dir_there : Bool) (asked : ℕ) (command : Text) (cold : Bool)
      (s : Stats F)
      → IsAccounted
          (startups cold s)
          (startups cold (run_software_startup runs dir_there asked command cold s).0)
          (run_software_startup runs dir_there asked command cold s).1
  unfolding run_software_startup
  run_software_startup-IsAccounted runs dir_there asked command cold s =
      let P : Stats F × Bool → Type 0 =
        λ r. IsAccounted (startups cold s) (startups cold r.0) r.1 in
      let result = runs (timeout_of cold asked) (trim_space command) in
      if_elim P (not dir_there) (λ _. startup_failed-IsAccounted cold s)
        (λ _.
          if_elim P (trim_space command == []) (λ _. startup_failed-IsAccounted cold s)
            (λ _.
              if_elim P (not result.0) (λ _. startup_failed-IsAccounted cold s)
                (λ _. startup_done-IsAccounted cold result.1 s)))

  -- On every path of the three software phases, errors included. A startup counts once in the histogram
  -- of its kind, as done where it returns nil and as failed where it does not. So do a clone and an
  -- extraction; their file counters rise by the files of one that was done and by nothing else; and
  -- wherever their command was run, its directory is removed afterwards.
  pub software_phases_lem :
      (starts : ℕ → Text → Bool × ℕ) (runs : Text → Bool × ℕ × ℕ) (there cold cleared made : Bool)
      (asked : ℕ) (command url archive : Text) (s : Stats F)
      → IsAccounted
          (startups cold s)
          (startups cold (run_software_startup starts there asked command cold s).0)
          (run_software_startup starts there asked command cold s).1
        × IsClosed s.latencies.git_clone
            (run_git_clone runs there archive cleared made s).stats.latencies.git_clone
            s.git_files
            (run_git_clone runs there archive cleared made s).stats.git_files
            (runs (clone_command archive)).2
            (run_git_clone runs there archive cleared made s)
        × IsClosed s.latencies.untar
            (run_untar runs url there archive cleared made s).stats.latencies.untar
            s.untar_files
            (run_untar runs url there archive cleared made s).stats.untar_files
            (runs (tar_command archive)).2
            (run_untar runs url there archive cleared made s)
  software_phases_lem starts runs there cold cleared made asked command url archive s = (
    run_software_startup-IsAccounted starts there asked command cold s,
    run_git_clone-IsClosed runs there archive cleared made s,
    run_untar-IsClosed runs url there archive cleared made s,
  )
