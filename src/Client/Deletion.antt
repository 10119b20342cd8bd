-- ===== src/Client/Deletion.antt =====
-- internal/client/worker.go: runDelete, the phases that delete files at a rate, in the middle of a test
-- and at its end. What os.Stat, os.Remove and the walk of nextOnDisk come to is an argument.
pub mod Kept
mod Tests
use home_bench.Base.{
  ℕ, ◌+◌, Bool, true, false, List, [], ◌∷◌, ◌++◌, Option, none, some, if◌then◌else◌, Float64, Text,
  ◌==◌, nat_eq,
}
use home_bench.Client.Ledger.{FileLedger, next_existing_path}
use home_bench.Client.Stats.{Stats, add_to, deletes, observe_delete}
use home_bench.Client.Pace.{Exit, in_time, stopped, Clock, sleeps, paced, turns}

pub record DeleteTurn (F : Type 0) : Type 0 where
  pub clock : Clock F
  pub meanwhile : FileLedger → FileLedger  -- what other goroutines do to the ledger before it
  pub stat : Text → Bool  -- os.Stat returns nil
  pub on_disk : Option Text  -- nextOnDisk
  pub removes : Bool  -- os.Remove returns nil
  pub op_time : ℕ

-- The variables of runDelete, with the ledger and the counters. The lists are no variables of the
-- source: they note the paths that os.Remove was called with, and those that it removed.
pub record Deleting (F : Type 0) : Type 0 where
  pub deleted : F
  pub ledger : FileLedger
  pub stats : Stats F
  pub tried : List Text
  pub removed : List Text

-- `path, ok = w.nextOnDisk(cmd)` where the ledger has no file.
abbrev pub or_on_disk : Option Text → Option Text → Option Text
or_on_disk (some p) disk = some p
or_on_disk none disk = disk

module _ {F : Type 0} ⦃f : Float64 F⦄ where
  unfoldable pub remove_file : DeleteTurn F → Text → Deleting F → Deleting F
  remove_file t p s =
      let called = record s { tried = s.tried ++ (p ∷ []) } in
      if t.removes
      then record called {
        deleted = f.fadd s.deleted (f.of_ℕ 1);
        stats = add_to deletes 1 (observe_delete t.op_time s.stats);
        removed = s.removed ++ (p ∷ []);
      }
      else called

  -- The part of a turn that looks for a file and deletes it; without one it sleeps.
  unfoldable pub delete_next : DeleteTurn F → Option Text → Deleting F → Deleting F × Option Exit
  unfolding remove_file
  delete_next t none s = sleeps t.clock s
  delete_next t (some p) s = (remove_file t p s, none)

  -- The path of an index, and removeFromLedger
  module _ (path : ℕ → Text) (removing : Bool) where
    unfoldable pub delete_turn : F → DeleteTurn F → Deleting F → Deleting F × Option Exit
    unfolding delete_next
    delete_turn rate t s =
        let now = record s { ledger = t.meanwhile s.ledger } in
        let found = next_existing_path t.stat path removing now.ledger in
        paced t.clock (f.fle (f.fmul rate t.clock.elapsed) s.deleted) now
          (delete_next t (or_on_disk found.0 t.on_disk) (record now { ledger = found.1 }))

    -- runDelete; with no rate, it sleeps for the whole duration.
    unfoldable pub run_delete :
        F → Bool → List (DeleteTurn F) → FileLedger → Stats F → Deleting F × Option Exit
    run_delete rate sleep_cancelled ts ledger stats =
        let start : Deleting F = record {
          deleted = f.of_ℕ 0;
          ledger = ledger;
          stats = stats;
          tried = [];
          removed = [];
        } in
        if f.fle rate (f.of_ℕ 0)
        then (start, some (if sleep_cancelled then stopped else in_time))
        else turns (delete_turn rate) ts start
