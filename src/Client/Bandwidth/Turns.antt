-- ===== src/Client/Bandwidth/Turns.antt =====
-- internal/client/worker.go: a turn of the loop of runBandwidth, and the loop.
use home_bench.Base.{
  ℕ, ◌+◌, ◌-◌, Bool, true, false, not, List, [], ◌∷◌, Option, none, some, ◌==◌, nat_eq,
  if◌then◌else◌, ltb, leb, Float64, ℤ,
}
use home_bench.Client.Ledger.{FileLedger}
use home_bench.Client.Stats.{
  Stats, add_to, reads, writes, bytes_read, bytes_written, observe_write, observe_read,
}
use home_bench.Client.Bandwidth.{
  chunk_of, file_size_of, ReadEnd, read_ok, read_eof, read_failed, Call, wrote,
}
use home_bench.Client.Pace.{Exit, in_time, stopped}
use home_bench.Client.Bandwidth.Loop.{
  Turn, Transfer, close_file, open_next_write, open_next_read, record_active,
}

module _ {F : Type 0} ⦃f : Float64 F⦄ where
  -- `if !fileOpStart.IsZero()`: the time of the whole file
  unfoldable pub time_write : ℕ → Transfer F → Stats F → Stats F
  time_write now s stats = elim s.file_op_start [
    | none ↦ stats
    | some at ↦ observe_write (now - at) stats
  ]

  unfoldable pub time_read : ℕ → Transfer F → Stats F → Stats F
  time_read now s stats = elim s.file_op_start [
    | none ↦ stats
    | some at ↦ observe_read (now - at) stats
  ]

  -- The file is written to its end.
  unfoldable pub finish_write : Turn F → Transfer F → Transfer F
  unfolding close_file
  finish_write t s =
      close_file
        (record_active (record s { stats = add_to writes 1 (time_write t.done_at s s.stats) }))

  -- The file is read to its end; one of which nothing was read does not count.
  unfoldable pub finish_read : Turn F → Transfer F → Transfer F
  unfolding close_file
  finish_read t s = close_file (
      if ltb 0 s.file_off
      then record s { stats = add_to reads 1 (time_read t.done_at s s.stats) }
      else s)

  -- The note of bytes of the file that is written.
  unfoldable pub note_bytes : ℕ → Transfer F → List Call
  note_bytes n s = elim s.active_idx [ none ↦ s.calls | some idx ↦ wrote idx n ∷ s.calls ]

  -- What Write or Read transferred, where that is more than nothing.
  unfoldable pub credit_write : ℕ → Transfer F → Transfer F
  credit_write n s = record s {
    file_off = s.file_off + n;
    transferred = f.fadd s.transferred (f.of_ℕ n);
    stats = add_to bytes_written n s.stats;
    calls = note_bytes n s;
  }

  unfoldable pub credit_read : ℕ → Transfer F → Transfer F
  credit_read n s = record s {
    file_off = s.file_off + n;
    transferred = f.fadd s.transferred (f.of_ℕ n);
    stats = add_to bytes_read n s.stats;
  }

  -- After an error: the file is closed, and the loop ends if its time is over.
  unfoldable pub give_up : Turn F → Transfer F → Transfer F × Option Exit
  give_up t s =
      let exit = if t.late_cancelled then some stopped else if t.late then some in_time else none in
      (close_file s, exit)

  -- The part of a turn that writes.
  unfoldable pub write_turn : ℕ → Turn F → Transfer F → Transfer F × Option Exit
  write_turn size t s =
      let chunk = chunk_of (size - s.file_off) in
      let result = t.write chunk in
      let moved = if ltb 0 result.0 then credit_write result.0 s else s in
      if size - s.file_off == 0
      then (finish_write t s, none)
      else if chunk == 0
      then (close_file s, none)
      else if not result.1
      then give_up t moved
      else if leb size moved.file_off
      then (finish_write t moved, none)
      else (moved, none)

  -- How a turn ends that has read.
  unfoldable pub read_outcome : ℕ → Turn F → Transfer F → ReadEnd → Transfer F × Option Exit
  read_outcome size t moved read_eof = (finish_read t moved, none)
  read_outcome size t moved read_ok =
      if leb size moved.file_off then (finish_read t moved, none) else (moved, none)
  read_outcome size t moved read_failed =
      if leb size moved.file_off then (finish_read t moved, none) else give_up t moved

  -- The part of a turn that reads.
  unfoldable pub read_turn : ℕ → Turn F → Transfer F → Transfer F × Option Exit
  unfolding read_outcome
  read_turn size t s =
      let chunk = chunk_of (size - s.file_off) in
      let result = t.read chunk in
      let moved = if ltb 0 result.0 then credit_read result.0 s else s in
      if size - s.file_off == 0
      then (finish_read t s, none)
      else if chunk == 0
      then (finish_read t s, none)
      else read_outcome size t moved result.1

  unfoldable pub transfer_turn : ℕ → Turn F → Transfer F → Transfer F × Option Exit
  transfer_turn size t s = if s.writing then write_turn size t s else read_turn size t s

  -- A turn that sleeps.
  unfoldable pub sleep_turn : Turn F → Transfer F → Transfer F × Option Exit
  sleep_turn t s = (s, if t.sleep_cancelled then some stopped else none)

  -- The turn of the loop, for `bytesPerSec`, the size of a file and doWrite.
  unfoldable pub bandwidth_turn : F → ℕ → Bool → Turn F → Transfer F → Transfer F × Option Exit
  bandwidth_turn rate size do_write t s =
      let now = record s { ledger = t.meanwhile s.ledger } in
      let milli = f.fdiv (f.of_ℕ 1) (f.of_ℕ 1000) in
      let elapsed = if f.flt t.elapsed milli then milli else t.elapsed in
      let opened =
        if s.file
        then (now, true)
        else if do_write
        then open_next_write t now
        else open_next_read size t now in
      if t.past_deadline
      then (now, some in_time)
      else if t.cancelled
      then (now, some stopped)
      else if f.fle (f.fmul rate elapsed) s.transferred
      then sleep_turn t now
      else if t.remain_short
      then (now, some in_time)
      else if not opened.1
      then sleep_turn t opened.0
      else transfer_turn size t opened.0

  -- The loop over those turns, until it returns; a file that is open is closed then. With no
  -- result, it is still under way after them.
  unfoldable pub bandwidth_loop :
      F → ℕ → Bool → List (Turn F) → Transfer F → Transfer F × Option Exit
  bandwidth_loop rate size do_write [] s = (s, none)
  bandwidth_loop rate size do_write (t ∷ ts) s =
      let turned = bandwidth_turn rate size do_write t s in
      let later = bandwidth_loop rate size do_write ts turned.0 in
      elim turned.1 [ none ↦ later | some exit ↦ (close_file turned.0, some exit) ]

  -- The variables at the start.
  unfoldable pub start_transfer : FileLedger → Stats F → Transfer F
  start_transfer ledger stats = record {
    read_files = [];
    read_cursor = 0;
    transferred = f.of_ℕ 0;
    file = false;
    file_off = 0;
    writing = false;
    active_idx = none;
    file_op_start = none;
    last_refresh = none;
    ledger = ledger;
    stats = stats;
    calls = [];
  }

  -- runBandwidth; with no rate, it sleeps for the whole duration.
  unfoldable pub run_bandwidth :
      F → ℤ → Bool → Bool → List (Turn F) → FileLedger → Stats F → Transfer F × Option Exit
  run_bandwidth rate asked do_write sleep_cancelled turns ledger stats =
      if f.fle rate (f.of_ℕ 0)
      then (start_transfer ledger stats, some (if sleep_cancelled then stopped else in_time))
      else bandwidth_loop rate (file_size_of asked) do_write turns (start_transfer ledger stats)
