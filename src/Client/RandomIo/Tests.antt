-- ===== src/Client/RandomIo/Tests.antt =====
-- runRIOPS of internal/client/worker.go on concrete turns, with whole numbers for the floating-point
-- ones.
use home_bench.Base.{ℕ, Bool, true, false, [], ◌∷◌, arith, pos, whole_floats}
use home_bench.Client.Stats.{new_stats}
use home_bench.Client.RandomIo.{IoTurn, run_riops, blocks_of}
use home_bench.Client.RandomIo.Blocks.{Draws, Counts, run_riops-Counts}

-- A file of 10000 bytes has two blocks.
abbrev at_block : Bool → ℕ → IoTurn ℕ
at_block over n = record {
  clock = record { past_deadline = over; cancelled = false; elapsed = 1; sleep_cancelled = false };
  drawn = n;
  done = true;
}

first_block-Draws : (over : Bool) → Draws (pos 10000) (at_block over 1)
unfolding blocks_of
first_block-Draws over blocks h = ground (arith, h)

run_riops-Counts_example :
    Counts
      (pos 10000)
      (new_stats {F = ℕ})
      (run_riops
        (pos 10000)
        true
        100
        100
        (at_block false 1 ∷ at_block true 1 ∷ [])
        (at_block false 1 ∷ [])
        (new_stats {F = ℕ})).0
run_riops-Counts_example =
    run_riops-Counts (pos 10000) (new_stats {F = ℕ}) true 100 100
      (at_block false 1 ∷ at_block true 1 ∷ []) (at_block false 1 ∷ [])
      (first_block-Draws false, (first_block-Draws true, tt)) (first_block-Draws false, tt)
