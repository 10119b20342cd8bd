-- ===== src/Client/RandomIo/Blocks.antt =====
-- Where runRIOPS of internal/client/worker.go reads and writes, and what it counts.
use home_bench.Base.{
  ℕ, ◌+◌, ◌*◌, ◌%◌, ◌^◌, ◌≤◌, ◌<◌, ◌≡◌, inl, inr, Bool, true, false, not, List, ◌∷◌, Option, none,
  some, Option-cases, if◌then◌else◌, if_elim, ◌==◌, nat_eq, arith, All, Float64, ℤ, pos_part,
}
use home_bench.Client.Stats.{Stats, add_to}
use home_bench.Client.Pace.{Exit, in_time, stopped, paced_elim, turns_elim}
use home_bench.Client.Bandwidth.{direct_align}
use home_bench.Client.RandomIo.{
  IoTurn, RandomIo, IoEnd, riops_file_size, aligned_offset, blocks_of, access_block, is_ahead,
  io_turn, do_io, after_writes, riops_start, run_riops,
}

-- The buffer begins at an aligned address, and lies in its array, which is a block longer.
aligned_offset_lem :
    (address : ℕ)
    → ((address + aligned_offset address) % direct_align ≡ 0)
      × (aligned_offset address < direct_align)
unfolding aligned_offset
aligned_offset_lem address = (ground arith, ground arith)

-- The size of the sparse file.
abbrev pub size_asked : ℤ → ℕ
size_asked asked = if pos_part asked == 0 then riops_file_size else pos_part asked

-- The blocks lie in the file.
blocks_of-fit :
    (asked : ℤ) (blocks : ℕ) → blocks_of asked ≡ some blocks → blocks * 4096 ≤ size_asked asked
unfolding blocks_of
blocks_of-fit asked blocks h = ground (arith, h)

-- mrand.Int64N: less than its argument.
abbrev pub Draws : {F : Type 0} → ℤ → IoTurn F → Type 0
Draws asked t = (blocks : ℕ) → blocks_of asked ≡ some blocks → t.drawn < blocks

module _ {F : Type 0} ⦃f : Float64 F⦄ (asked : ℤ) (stats : Stats F) where
  -- A whole block of the file, at an aligned offset.
  abbrev pub InFile : ℕ → Type 0
  InFile offset = (offset % direct_align ≡ 0) × (offset + 4096 ≤ size_asked asked)

  -- Every call was on a block of the file, and what was done is counted, in operations and in bytes.
  pub record Counts (s : RandomIo F) : Type 0 where
    pub offsets : All InFile s.offsets
    pub write_ops : s.stats.write_ops % 2 ^ 64 ≡ (stats.write_ops + s.writes_done) % 2 ^ 64
    pub write_bytes :
        s.stats.write_bytes % 2 ^ 64 ≡ (stats.write_bytes + 4096 * s.writes_done) % 2 ^ 64
    pub read_ops : s.stats.read_ops % 2 ^ 64 ≡ (stats.read_ops + s.reads_done) % 2 ^ 64
    pub read_bytes : s.stats.read_bytes % 2 ^ 64 ≡ (stats.read_bytes + 4096 * s.reads_done) % 2 ^ 64

  module _ (blocks : ℕ) (some_blocks : blocks_of asked ≡ some blocks) where
    access_block-Counts :
        (write : Bool) (t : IoTurn F) (s : RandomIo F)
        → Draws asked t
        → Counts s
        → Counts (access_block write t s)
    unfolding access_block add_to
    access_block-Counts write t s draws v =
        let fits : blocks * 4096 ≤ size_asked asked = blocks_of-fit asked blocks some_blocks in
        let below : t.drawn < blocks = draws blocks some_blocks in
        let inside : All InFile (t.drawn * 4096 ∷ s.offsets) =
          ((omega arith, omega (arith, fits, below)), v.offsets) in
        if_elim Counts (not t.done)
          (λ _. record {
            offsets = inside;
            write_ops = v.write_ops;
            write_bytes = v.write_bytes;
            read_ops = v.read_ops;
            read_bytes = v.read_bytes;
          })
          (λ _.
            if_elim Counts write
              (λ _. record {
                offsets = inside;
                write_ops = omega (arith, v.write_ops);
                write_bytes = omega (arith, v.write_bytes);
                read_ops = v.read_ops;
                read_bytes = v.read_bytes;
              })
              (λ _. record {
                offsets = inside;
                write_ops = v.write_ops;
                write_bytes = v.write_bytes;
                read_ops = omega (arith, v.read_ops);
                read_bytes = omega (arith, v.read_bytes);
              }))

    do_io-Counts :
        (write : Bool) (rate : F) (ts : List (IoTurn F)) (s : RandomIo F)
        → All (Draws asked) ts
        → Counts s
        → Counts (do_io write rate ts s).0
    unfolding do_io io_turn
    do_io-Counts write rate ts s draws v =
        turns_elim Counts (Draws asked) (io_turn write rate)
          (λ t r d w.
            paced_elim Counts t.clock (is_ahead rate t r) r (access_block write t r, none) w
              (access_block-Counts write t r d w))
          ts (record s { finished = f.of_ℕ 0 }) draws
          (record {
            offsets = v.offsets;
            write_ops = v.write_ops;
            write_bytes = v.write_bytes;
            read_ops = v.read_ops;
            read_bytes = v.read_bytes;
          })

    after_writes-Counts :
        (rate : F) (ts : List (IoTurn F)) (r : RandomIo F × Option Exit)
        → All (Draws asked) ts
        → Counts r.0
        → Counts (after_writes rate ts r).0
    unfolding after_writes
    after_writes-Counts rate ts (s, some in_time) draws v = do_io-Counts false rate ts s draws v
    after_writes-Counts rate ts (s, some stopped) draws v = v
    after_writes-Counts rate ts (s, none) draws v = v

  -- Where the random numbers are below their bound: each read and each write of runRIOPS is on a whole
  -- block inside the file of the size that was asked for, at an offset that O_DIRECT accepts, and the
  -- counters rise by one operation and 4096 bytes for each that is done, as 64-bit numbers.
  pub run_riops-Counts :
      (prepared : Bool) (write_rate read_rate : F) (ws rs : List (IoTurn F))
      → All (Draws asked) ws
      → All (Draws asked) rs
      → Counts (run_riops asked prepared write_rate read_rate ws rs stats).0
  unfolding run_riops riops_start
  run_riops-Counts prepared write_rate read_rate ws rs dw dr =
      let s : RandomIo F = riops_start stats in
      let fresh : Counts s = record {
        offsets = tt;
        write_ops = omega arith;
        write_bytes = omega arith;
        read_ops = omega arith;
        read_bytes = omega arith;
      } in
      elim (Option-cases (blocks_of asked)) [
        | inl e ↦ rw (e, run_riops) fresh
        | inr (blocks, e) ↦
            rw (e, run_riops)
              (if_elim (λ (r : RandomIo F × IoEnd). Counts r.0) prepared
                (λ _.
                  after_writes-Counts blocks e read_rate rs (do_io true write_rate ws s) dr
                    (do_io-Counts blocks e true write_rate ws s dw fresh))
                (λ _. fresh))
      ]
