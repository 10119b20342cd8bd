-- ===== src/Client/RandomIo.antt =====
-- internal/client/worker.go: runRIOPS, random reads and writes of blocks of a sparse file, and the
-- aligned buffer of internal/client/aligned.go. The random numbers, the clock and the results of the
-- calls are arguments.
pub mod Blocks
mod Tests
use home_bench.Base.{
  ℕ, ◌+◌, ◌-◌, ◌*◌, ◌/◌, ◌%◌, Bool, true, false, not, List, [], ◌∷◌, ◌++◌, Option, none, some,
  if◌then◌else◌, ltb, ◌==◌, nat_eq, Float64, ℤ, pos_part,
}
use home_bench.Client.Stats.{Stats, add_to, reads, writes, bytes_read, bytes_written}
use home_bench.Client.Pace.{Exit, in_time, stopped, Clock, paced, turns}
use home_bench.Client.Bandwidth.{direct_align, align_down}

-- RIOPSFileSize and RIOPSIOSize
abbrev pub riops_file_size : ℕ
riops_file_size = 1024 * 1024 * 1024

abbrev pub riops_io_size : ℕ
riops_io_size = 4096

-- alignedBuffer: where the buffer begins, after the address of its array.
unfoldable pub aligned_offset : ℕ → ℕ
aligned_offset address =
    let over = address % direct_align in if over == 0 then over else direct_align - over

-- The size of a call.
abbrev pub io_size : ℕ
io_size = align_down (if ltb riops_io_size direct_align then direct_align else riops_io_size)

-- The number of blocks, or none where the file would be smaller than a block.
unfoldable pub blocks_of : ℤ → Option ℕ
unfolding align_down
blocks_of asked =
    let size = if pos_part asked == 0 then riops_file_size else pos_part asked in
    let whole = size / io_size * io_size in
    if ltb whole io_size then none else some (whole / io_size)

pub record IoTurn (F : Type 0) : Type 0 where
  pub clock : Clock F
  pub drawn : ℕ  -- mrand.Int64N(blocks)
  pub done : Bool  -- WriteAt returns nil, or ReadAt returns nil or io.EOF

-- The variable of doIO, with the counters. The others are no variables of the source: they note the
-- offsets of the calls, the last one first, and how many writes and reads were done.
pub record RandomIo (F : Type 0) : Type 0 where
  pub finished : F
  pub stats : Stats F
  pub offsets : List ℕ
  pub writes_done : ℕ
  pub reads_done : ℕ

-- How runRIOPS returns: as its loops do, or with an error before them.
pub data IoEnd : Type 0 where
  ended : Option Exit → IoEnd
  failed : IoEnd

module _ {F : Type 0} ⦃f : Float64 F⦄ where
  -- WriteAt or ReadAt at a random block.
  unfoldable pub access_block : Bool → IoTurn F → RandomIo F → RandomIo F
  unfolding align_down
  access_block write t s =
      let called = record s { offsets = t.drawn * io_size ∷ s.offsets } in
      if not t.done
      then called
      else if write
      then record called {
        finished = f.fadd s.finished (f.of_ℕ 1);
        stats = add_to bytes_written io_size (add_to writes 1 s.stats);
        writes_done = s.writes_done + 1;
      }
      else record called {
        finished = f.fadd s.finished (f.of_ℕ 1);
        stats = add_to bytes_read io_size (add_to reads 1 s.stats);
        reads_done = s.reads_done + 1;
      }

  -- `rate > 0` and `done >= rate*elapsed`
  unfoldable pub is_ahead : F → IoTurn F → RandomIo F → Bool
  is_ahead rate t s =
      let milli = f.fdiv (f.of_ℕ 1) (f.of_ℕ 1000) in
      let elapsed = if f.flt t.clock.elapsed milli then milli else t.clock.elapsed in
      if f.flt (f.of_ℕ 0) rate then f.fle (f.fmul rate elapsed) s.finished else false

  unfoldable pub io_turn : Bool → F → IoTurn F → RandomIo F → RandomIo F × Option Exit
  unfolding access_block is_ahead
  io_turn write rate t s = paced t.clock (is_ahead rate t s) s (access_block write t s, none)

  -- doIO
  unfoldable pub do_io : Bool → F → List (IoTurn F) → RandomIo F → RandomIo F × Option Exit
  do_io write rate ts s = turns (io_turn write rate) ts (record s { finished = f.of_ℕ 0 })

  -- The reads, once the writes have come to the end of their time.
  unfoldable pub after_writes :
      F → List (IoTurn F) → RandomIo F × Option Exit → RandomIo F × Option Exit
  unfolding do_io
  after_writes rate ts (s, some in_time) = do_io false rate ts s
  after_writes rate ts (s, some stopped) = (s, some stopped)
  after_writes rate ts (s, none) = (s, none)

  unfoldable pub riops_start : Stats F → RandomIo F
  riops_start stats = record {
    finished = f.of_ℕ 0;
    stats = stats;
    offsets = [];
    writes_done = 0;
    reads_done = 0;
  }

  -- runRIOPS: half of the time writes, then reads. `prepared`: the directory is made, the sparse file
  -- sized, and opened.
  unfoldable pub run_riops :
      ℤ → Bool → F → F → List (IoTurn F) → List (IoTurn F) → Stats F → RandomIo F × IoEnd
  unfolding riops_start
  run_riops asked prepared write_rate read_rate ws rs stats = elim (blocks_of asked) [
    | none ↦ (riops_start stats, failed)
    | some blocks ↦
        let done = after_writes read_rate rs (do_io true write_rate ws (riops_start stats)) in
        if prepared then (done.0, ended done.1) else (riops_start stats, failed)
  ]
