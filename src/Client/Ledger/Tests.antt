-- ===== src/Client/Ledger/Tests.antt =====
-- The ledger of internal/client/worker.go on concrete files.
use home_bench.Base.{
  ℕ, ◌≡◌, refl, Bool, false, [], ◌∷◌, arith, nat_eq, ◌==◌, Text, contains, Distinct, remove,
}
use home_bench.Client.Ledger.{FileLedger, next_index, add_bw, next_past, next_existing_path}
use home_bench.Client.Ledger.Fresh.{Sharing, Reach, start, later, takes, adds_bw, fresh_index}
use home_bench.Client.Ledger.Scan.{first_existing, from_cursor, next_existing_path_lem}

-- Two phases take an index each; the second one adds its bandwidth file first.
abbrev two_files : Sharing
two_files = record {
  ledger = record { indices = 1 ∷ []; bw_indices = 1 ∷ []; next = 2; del_pos = 0 };
  taken = 0 ∷ [];
}

two_files_reached : Reach 3 two_files
unfolding next_index add_bw next_past remove contains
two_files_reached = later (later (later start takes) takes) (adds_bw 1 refl)

fresh_index_example :
    (contains (next_index two_files.ledger).0 two_files.ledger.indices ≡ false)
    × (contains (next_index two_files.ledger).0 two_files.ledger.bw_indices ≡ false)
    × (contains (next_index two_files.ledger).0 two_files.taken ≡ false)
    × Distinct two_files.ledger.indices
    × Distinct two_files.ledger.bw_indices
    × Distinct two_files.taken
fresh_index_example = fresh_index (omega arith) two_files_reached

-- Four files, the cursor at the last one; the path of an index is that one number.
abbrev four_files : FileLedger
four_files = record { indices = 10 ∷ 11 ∷ 12 ∷ 13 ∷ []; bw_indices = []; next = 14; del_pos = 3 }

abbrev one_byte : ℕ → Text
one_byte i = i ∷ []

-- Only the file of index 11 exists.
abbrev only_11 : Text → Bool
only_11 [] = false
only_11 (c ∷ s) = c == 11

next_existing_path_lem_example :
    ((next_existing_path only_11 one_byte false four_files).0
      ≡ first_existing only_11 one_byte (from_cursor four_files))
    × ((next_existing_path only_11 one_byte false four_files).1.indices ≡ four_files.indices)
next_existing_path_lem_example = next_existing_path_lem only_11 one_byte four_files
