-- ===== src/Client/Deletion/Tests.antt =====
-- The delete phases of internal/client/worker.go on concrete turns, with whole numbers for the
-- floating-point ones.
use home_bench.Base.{
  ℕ, refl, Bool, true, false, [], ◌∷◌, none, Text, nat_eq, ◌==◌, contains, whole_floats,
}
use home_bench.Client.Ledger.{FileLedger}
use home_bench.Client.Stats.{new_stats}
use home_bench.Client.Deletion.{DeleteTurn, run_delete}
use home_bench.Client.Deletion.Kept.{Stays, IsKept, run_delete-IsKept}

abbrev one_byte : ℕ → Text
one_byte i = i ∷ []

abbrev above_ten : Text → Bool
above_ten [] = false
above_ten (c ∷ s) = c == 11

-- os.Remove fails in the first turn.
abbrev attempt : Bool → DeleteTurn ℕ
attempt ok = record {
  clock = record { past_deadline = false; cancelled = false; elapsed = 1; sleep_cancelled = false };
  meanwhile = λ l. l;
  stat = above_ten;
  on_disk = none;
  removes = ok;
  op_time = 3000;
}

abbrev three_files : FileLedger
three_files = record { indices = 10 ∷ 11 ∷ 12 ∷ []; bw_indices = []; next = 13; del_pos = 0 }

attempt-Stays : (ok : Bool) → Stays one_byte 11 (new_stats {F = ℕ}) true (attempt ok)
attempt-Stays ok = record { alone = λ l. refl; there = refl }

run_delete-IsKept_example :
    IsKept one_byte 11
      (new_stats {F = ℕ})
      true
      (run_delete one_byte true 10 false
        (attempt false ∷ attempt true ∷ [])
        three_files
        (new_stats {F = ℕ})).0
unfolding contains
run_delete-IsKept_example =
    run_delete-IsKept one_byte 11 (new_stats {F = ℕ}) true 10 false
      (attempt false ∷ attempt true ∷ []) three_files
      (attempt-Stays false, (attempt-Stays true, tt)) refl
