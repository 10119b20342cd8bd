-- ===== src/Client/Worker.antt =====
-- internal/client/worker.go: which phase a command starts, and what is left of the worker. The phases
-- themselves are in Creation, Deletion, Bandwidth, RandomIo and Software.
pub mod Dispatch
use home_bench.Base.{
  ℕ, ◌*◌, Bool, true, false, List, [], ◌∷◌, Option, none, some, Text, if◌then◌else◌, Float64,
}
use home_bench.Protocol.Phase.{Phase}
use home_bench.Protocol.Interval.{second}
use home_bench.Client.Ledger.{FileLedger, clear_bw, reset_delete_cursor, clear}

-- What Run calls. A startup is cold or warm; a deletion is the final one or not; `wipe` is
-- wipeHostRoot; bandwidth writes or reads.
pub data Task : Type 0 where
  startup : Bool → Task
  clone_repo extract create_files wipe both_bandwidths random_io : Task
  delete_files : Bool → Task
  bandwidth : Bool → Task
  unknown_phase : Task

-- Run, by the command's phase and ForceCleanup
unfoldable pub task_of : Phase → Bool → Task
task_of Phase.software_cold force = startup true
task_of Phase.software_warm force = startup false
task_of Phase.git_clone force = clone_repo
task_of Phase.untar force = extract
task_of Phase.create force = create_files
task_of Phase.delete force = delete_files false
task_of Phase.final_delete force = if force then wipe else delete_files true
task_of Phase.write_bw force = bandwidth true
task_of Phase.read_bw force = bandwidth false
task_of Phase.read_write force = both_bandwidths
task_of Phase.riops force = random_io
task_of _ force = unknown_phase

-- What Run does to the ledger before the phase, and wipeHostRoot in place of one.
unfoldable pub prepare_ledger : Task → FileLedger → FileLedger
prepare_ledger create_files l = clear_bw (reset_delete_cursor l)
prepare_ledger wipe l = clear l
prepare_ledger _ l = l

-- Cleanup: the trees that are removed, and the ledger.
unfoldable pub cleanup : Text → Text → FileLedger → List Text × FileLedger
cleanup host_root software_dir l = (host_root ∷ software_dir ∷ [], clear l)

-- The errors of the two goroutines of runReadWrite.
pub data PhaseError : Type 0 where
  canceled deadline_exceeded other : PhaseError

abbrev pub without_context : Option PhaseError → Option PhaseError
without_context (some other) = some other
without_context _ = none

-- What runReadWrite returns, by the errors in the order of their arrival.
unfoldable pub read_write_result : Option PhaseError → Option PhaseError → Option PhaseError
read_write_result (some e) later = without_context (some e)
read_write_result none later = without_context later

module _ {F : Type 0} ⦃f : Float64 F⦄ where
  -- The rate of the reads of runReadWrite, from the command's rate and ReadRate.
  unfoldable pub read_rate_of : F → F → F
  read_rate_of rate read_rate = if f.fle read_rate (f.of_ℕ 0) then rate else read_rate

  -- durationOf, in nanoseconds; DefaultPhaseStepDuration is 30 seconds.
  unfoldable pub duration_of : F → ℕ
  duration_of duration =
      if f.fle duration (f.of_ℕ 0) then 30 * second else f.to_ℕ (f.fmul duration (f.of_ℕ second))
