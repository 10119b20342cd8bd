-- ===== src/Client/Stats/Tests.antt =====
-- The counters of internal/client/worker.go, on concrete accesses.
use home_bench.Base.{ℕ, ◌≡◌, refl, List, ◌∷◌, ◌++◌, [], whole_floats}
use home_bench.Protocol.Latency.{add_word}
use home_bench.Client.Stats.{
  reads, writes, creates, deletes, bytes_read, bytes_written, git_clones, untars, counter,
  new_stats, add_to, snapshot_and_reset,
}
use home_bench.Client.Stats.Reports.{
  Access, adds, swaps, reports, accesses, added, carried, counter-accesses,
}

-- The accesses of SnapshotAndReset, in their order.
abbrev report : List Access
report =
    swaps reads
    ∷ swaps writes
    ∷ swaps creates
    ∷ swaps deletes
    ∷ swaps bytes_read
    ∷ swaps bytes_written
    ∷ swaps git_clones
    ∷ swaps untars
    ∷ []

-- Two writes, one of them counted after the report took the writes and before it took their bytes.
abbrev two_writes : List Access
two_writes =
    adds writes 1
    ∷ adds bytes_written 512
    ∷ swaps reads
    ∷ swaps writes
    ∷ adds writes 1
    ∷ adds bytes_written 512
    ∷ swaps bytes_written
    ∷ (report ++ (adds writes 2 ∷ reports 7 ∷ []))

counter-accesses_example :
    add_word
      (carried writes two_writes (new_stats {F = ℕ}))
      (counter writes (accesses two_writes (new_stats {F = ℕ})))
    ≡ add_word (counter writes (new_stats {F = ℕ})) (added writes two_writes)
counter-accesses_example = counter-accesses writes two_writes (new_stats {F = ℕ})

reset_left : (snapshot_and_reset 7 (add_to writes 3 (new_stats {F = ℕ}))).1 ≡ new_stats {F = ℕ}
unfolding snapshot_and_reset add_to new_stats
reset_left = refl
