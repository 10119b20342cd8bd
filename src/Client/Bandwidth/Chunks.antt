-- ===== src/Client/Bandwidth/Chunks.antt =====
-- The sizes of internal/client/worker.go: those of the bandwidth files and of the calls of Write, which
-- O_DIRECT wants to be multiples of 4096 bytes.
use home_bench.Base.{
  ℕ, zero, suc, ◌+◌, ◌-◌, ◌%◌, ◌≤◌, ◌<◌, ◌≡◌, Bool, true, nat_eq, if◌then◌else◌, ltb, arith, ℤ,
  pos_part,
}
use home_bench.Client.Bandwidth.{
  direct_align, buffer_size, file_size_of, chunk_of, write_rounds, write_file_direct,
}

-- A file of the phase is a whole number of blocks and holds at least one, whatever size was asked for;
-- and it is no larger than asked, unless less than a block was.
pub file_size_of_lem :
    (asked : ℤ)
    → (file_size_of asked % direct_align ≡ 0)
      × (0 < file_size_of asked)
      × (direct_align ≤ pos_part asked → file_size_of asked ≤ pos_part asked)
unfolding file_size_of
file_size_of_lem asked = (ground arith, ground arith, ground arith)

-- The next call covers what is left, up to the buffer, where that is a whole number of blocks.
chunk_of_whole :
    (n : ℕ) → n % direct_align ≡ 0 → chunk_of n ≡ (if ltb n buffer_size then n else buffer_size)
unfolding chunk_of
chunk_of_whole n h = ground (arith, h)

pub chunk_of-le : (n : ℕ) → chunk_of n ≤ n
unfolding chunk_of
chunk_of-le n = ground arith

module _ (write : ℕ → ℕ → ℕ × Bool)
    (honest : (k n : ℕ) → (write k n).1 ≡ true → (write k n).0 ≡ n) where
  write_rounds_whole :
      (rounds size written : ℕ)
      → written ≤ size
      → (size - written) % direct_align ≡ 0
      → (write_rounds write rounds size written).1 ≡ true
      → (write_rounds write rounds size written).0 ≡ size
  unfolding write_rounds
  write_rounds_whole zero size written below whole h = absurd (ground (arith, h))
  write_rounds_whole (suc rounds) size written below whole h =
      let chunk = chunk_of (size - written) in
      ground (
        arith,
        chunk_of_whole (size - written) whole,
        honest rounds chunk,
        write_rounds_whole rounds size (written + chunk),
      )

  -- writeFileDirect never reports a file as written of which bytes are missing, where a call of Write
  -- that writes less than it was given returns an error.
  pub write_file_direct_whole :
      (size : ℕ)
      → size % direct_align ≡ 0
      → (write_file_direct write size).1 ≡ true
      → (write_file_direct write size).0 ≡ size
  unfolding write_file_direct
  write_file_direct_whole size whole h =
      write_rounds_whole (suc size) size 0 (omega arith) (omega (arith, whole)) h

module _ (write : ℕ → ℕ → ℕ × Bool) (full : (k n : ℕ) → write k n ≡ (n, true)) where
  write_rounds_ends :
      (rounds size written : ℕ)
      → written ≤ size
      → (size - written) % direct_align ≡ 0
      → size - written < rounds
      → write_rounds write rounds size written ≡ (size, true)
  unfolding write_rounds
  write_rounds_ends zero size written below whole h = absurd (omega (arith, h))
  write_rounds_ends (suc rounds) size written below whole h =
      let chunk = chunk_of (size - written) in
      rw (full rounds chunk) (
        ground (
          arith,
          chunk_of_whole (size - written) whole,
          write_rounds_ends rounds size (written + chunk),
        ))

  -- The rounds are enough: where each call of Write writes all, writeFileDirect writes the whole file
  -- and returns nil.
  write_file_direct_ends :
      (size : ℕ) → size % direct_align ≡ 0 → write_file_direct write size ≡ (size, true)
  unfolding write_file_direct
  write_file_direct_ends size whole =
      write_rounds_ends (suc size) size 0 (omega arith) (omega (arith, whole)) (omega arith)
