-- ===== src/Client/Creation/Tests.antt =====
-- The create phase of internal/client/worker.go on concrete turns, with whole numbers for the
-- floating-point ones.
use home_bench.Base.{
  ℕ, ◌≡◌, refl, Bool, true, false, List, [], ◌∷◌, Distinct, nat_eq, arith, whole_floats,
}
use home_bench.Client.Ledger.{new_file_ledger, next_index, next_past, add_index}
use home_bench.Client.Stats.{new_stats}
use home_bench.Client.Pace.{Clock, paced, turns}
use home_bench.Client.Creation.{CreateTurn, create_turn, run_create}
use home_bench.Client.Creation.Counted.{Recorded, run_create-Recorded}

abbrev at_second : ℕ → Clock ℕ
at_second n = record {
  past_deadline = false;
  cancelled = false;
  elapsed = n;
  sleep_cancelled = false;
}

abbrev attempt : Bool → CreateTurn ℕ
attempt ok = record {
  clock = at_second 1;
  meanwhile = λ l. l;
  parent_made = true;
  written = ok;
  op_time = 5000;
}

-- The second of three files is not written; the fourth turn is ahead of the rate.
abbrev attempts : List (CreateTurn ℕ)
attempts = attempt true ∷ attempt false ∷ attempt true ∷ attempt true ∷ []

run_create-Recorded_example :
    Recorded 512 new_file_ledger
      (new_stats {F = ℕ})
      (run_create 2 512 false attempts new_file_ledger (new_stats {F = ℕ})).0
    × Distinct
        (run_create 2 512 false attempts new_file_ledger (new_stats {F = ℕ})).0.ledger.indices
run_create-Recorded_example =
    run_create-Recorded 2 512 false attempts new_file_ledger (new_stats {F = ℕ})
      ((λ l. refl), ((λ l. refl), ((λ l. refl), ((λ l. refl), tt)))) tt tt (omega arith)

two_created :
    (run_create 2 512 false attempts new_file_ledger (new_stats {F = ℕ})).0.files ≡ 0 ∷ 2 ∷ []
unfolding run_create create_turn paced turns next_index add_index next_past
two_created = refl
