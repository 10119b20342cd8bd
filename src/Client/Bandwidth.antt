-- ===== src/Client/Bandwidth.antt =====
-- internal/client/worker.go: runBandwidth, the loop that writes or reads the bandwidth files of a
-- phase, and writeFileDirect. What a turn of the loop reads of the clock, the context and the file
-- system is an argument, the turn. A file is known by its index; times are in nanoseconds.
pub mod Chunks
pub mod Files
pub mod Loop
pub mod Written
mod Tests
pub mod Turns
use home_bench.Base.{
  ℕ, zero, suc, ◌+◌, ◌-◌, ◌*◌, ◌/◌, ◌%◌, Bool, true, false, not, ◌||◌, List, [], ◌∷◌, Option, none,
  some, ◌==◌, nat_eq, if◌then◌else◌, length, get_elem?, ltb, leb, Float64, ℤ, pos_part,
}
use home_bench.Protocol.Interval.{second}
use home_bench.Client.Ledger.{FileLedger, next_index, add_bw}
use home_bench.Client.Stats.{
  Stats, add_to, reads, writes, bytes_read, bytes_written, observe_write, observe_read,
}

abbrev pub direct_align : ℕ
direct_align = 4096

abbrev pub buffer_size : ℕ
buffer_size = 1024 * 1024

abbrev pub bandwidth_file_size : ℕ
bandwidth_file_size = 64 * 1024 * 1024

-- `(n / directAlign) * directAlign`
unfoldable pub align_down : ℕ → ℕ
align_down n = n / direct_align * direct_align

-- The size of a file of the phase, from the command's FileSize.
unfoldable pub file_size_of : ℤ → ℕ
unfolding align_down
file_size_of asked =
    let size = if pos_part asked == 0 then bandwidth_file_size else pos_part asked in
    if size % direct_align == 0
    then size
    else if align_down size == 0
    then direct_align
    else align_down size

-- The bytes of the next call of Write or Read, with that many left of the file.
unfoldable pub chunk_of : ℕ → ℕ
unfolding align_down
chunk_of remain =
    let chunk = if ltb remain buffer_size then remain else buffer_size in
    if chunk % direct_align == 0 then chunk else align_down chunk

-- How a call of Read ends.
pub data ReadEnd : Type 0 where
  read_ok read_eof read_failed : ReadEnd

-- What became of the files, the last call first: a new file, bytes written to one, and AddBW.
pub data Call : Type 0 where
  created : ℕ → Call
  wrote : ℕ → ℕ → Call
  recorded : ℕ → Call

-- The loop of writeFileDirect. `write` takes the round and the bytes of a call, and returns how many
-- were written and whether there was no error. The result is the bytes of the file, and whether
-- the function returned nil.
unfoldable pub write_rounds : (ℕ → ℕ → ℕ × Bool) → ℕ → ℕ → ℕ → ℕ × Bool
unfolding chunk_of
write_rounds write zero size written = (written, false)
write_rounds write (suc rounds) size written =
    let chunk = chunk_of (size - written) in
    let result = write rounds chunk in
    let later = write_rounds write rounds size (written + result.0) in
    if not (ltb written size)
    then (written, true)
    else if chunk == 0
    then (written, true)
    else if result.1
    then later
    else (written + result.0, false)

-- writeFileDirect, where a new file was opened
unfoldable pub write_file_direct : (ℕ → ℕ → ℕ × Bool) → ℕ → ℕ × Bool
write_file_direct write size = write_rounds write (suc size) size 0
