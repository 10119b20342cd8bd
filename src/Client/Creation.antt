-- ===== src/Client/Creation.antt =====
-- internal/client/worker.go: runCreate, the phase that creates files at a rate.
pub mod Counted
mod Tests
use home_bench.Base.{
  ℕ, ◌+◌, Bool, true, false, not, List, [], ◌∷◌, ◌++◌, Option, none, some, if◌then◌else◌, Float64,
}
use home_bench.Client.Ledger.{FileLedger, next_index, add_index}
use home_bench.Client.Stats.{Stats, add_to, creates, bytes_written, observe_create}
use home_bench.Client.Pace.{Exit, in_time, stopped, Clock, paced, turns}

pub record CreateTurn (F : Type 0) : Type 0 where
  pub clock : Clock F
  pub meanwhile : FileLedger → FileLedger  -- what other goroutines do to the ledger before it
  pub parent_made : Bool  -- EnsureParent
  pub written : Bool  -- os.WriteFile returns nil
  pub op_time : ℕ

-- The variables of runCreate, with the ledger and the counters. `files` is no variable of the source:
-- it notes the indices of the files that were written, in their order.
pub record Creating (F : Type 0) : Type 0 where
  pub created : F
  pub ledger : FileLedger
  pub stats : Stats F
  pub files : List ℕ

module _ {F : Type 0} ⦃f : Float64 F⦄ where
  -- The part of a turn that creates a file.
  unfoldable pub create_file : ℕ → CreateTurn F → Creating F → Creating F
  create_file size t s =
      let taken = next_index s.ledger in
      let ready = record s { ledger = taken.1 } in
      if not t.parent_made then ready else if not t.written then ready else record ready {
        created = f.fadd s.created (f.of_ℕ 1);
        ledger = add_index taken.0 taken.1;
        stats = add_to bytes_written size (add_to creates 1 (observe_create t.op_time s.stats));
        files = s.files ++ (taken.0 ∷ []);
      }

  unfoldable pub create_turn : F → ℕ → CreateTurn F → Creating F → Creating F × Option Exit
  unfolding create_file
  create_turn rate size t s =
      let now = record s { ledger = t.meanwhile s.ledger } in
      paced t.clock (f.fle (f.fmul rate t.clock.elapsed) s.created) now
        (create_file size t now, none)

  unfoldable pub start_creating : FileLedger → Stats F → Creating F
  start_creating ledger stats = record {
    created = f.of_ℕ 0;
    ledger = ledger;
    stats = stats;
    files = [];
  }

  -- runCreate; with no rate, it sleeps for the whole duration.
  unfoldable pub run_create :
      F → ℕ → Bool → List (CreateTurn F) → FileLedger → Stats F → Creating F × Option Exit
  unfolding start_creating
  run_create rate size sleep_cancelled ts ledger stats =
      if f.fle rate (f.of_ℕ 0)
      then (start_creating ledger stats, some (if sleep_cancelled then stopped else in_time))
      else turns (create_turn rate size) ts (start_creating ledger stats)
