-- ===== src/Client/Software/Tests.antt =====
-- The software phases of internal/client/software.go on concrete runs, with whole numbers for the
-- floating-point ones.
use home_bench.Base.{ℕ, ◌≡◌, Bool, true, some, Text, codes, whole_floats}
use home_bench.Client.Stats.{new_stats}
use home_bench.Client.Software.{shell_quote, run_software_startup, run_git_clone, run_untar}
use home_bench.Client.Software.Accounted.{
  IsAccounted, IsClosed, startups, clone_command, tar_command, software_phases_lem,
}
use home_bench.Client.Software.Quoting.{unquote, bare, unquote-shell_quote}

abbrev starts : ℕ → Text → Bool × ℕ
starts timeout command = (true, 7000)

abbrev runs : Text → Bool × ℕ × ℕ
runs command = (true, 9000, 12)

software_phases_lem_example :
    IsAccounted
      (startups true (new_stats {F = ℕ}))
      (startups true
        (run_software_startup starts true 0 (codes "./run") true (new_stats {F = ℕ})).0)
      (run_software_startup starts true 0 (codes "./run") true (new_stats {F = ℕ})).1
    × IsClosed
        (new_stats {F = ℕ}).latencies.git_clone
        (run_git_clone runs true
          (codes "/p/a.tar")
          true
          true
          (new_stats {F = ℕ})).stats.latencies.git_clone
        (new_stats {F = ℕ}).git_files
        (run_git_clone runs true (codes "/p/a.tar") true true (new_stats {F = ℕ})).stats.git_files
        (runs (clone_command (codes "/p/a.tar"))).2
        (run_git_clone runs true (codes "/p/a.tar") true true (new_stats {F = ℕ}))
    × IsClosed
        (new_stats {F = ℕ}).latencies.untar
        (run_untar runs
          (codes "http://h/a.tar")
          true
          (codes "/p/a.tar")
          true
          true
          (new_stats {F = ℕ})).stats.latencies.untar
        (new_stats {F = ℕ}).untar_files
        (run_untar runs
          (codes "http://h/a.tar")
          true
          (codes "/p/a.tar")
          true
          true
          (new_stats {F = ℕ})).stats.untar_files
        (runs (tar_command (codes "/p/a.tar"))).2
        (run_untar runs
          (codes "http://h/a.tar")
          true
          (codes "/p/a.tar")
          true
          true
          (new_stats {F = ℕ}))
software_phases_lem_example =
    software_phases_lem starts runs true true true true 0 (codes "./run") (codes "http://h/a.tar")
      (codes "/p/a.tar") (new_stats {F = ℕ})

unquote-shell_quote_example :
    unquote bare (shell_quote (codes "it's; rm -rf $HOME")) ≡ some (codes "it's; rm -rf $HOME")
unquote-shell_quote_example = unquote-shell_quote (codes "it's; rm -rf $HOME")
