-- ===== src/Client/Bandwidth/Loop.antt =====
-- internal/client/worker.go: the state of runBandwidth, and how its files are opened.
use home_bench.Base.{
  ℕ, ◌+◌, ◌%◌, Bool, true, false, not, ◌||◌, List, ◌∷◌, Option, none, some, ◌==◌, nat_eq,
  if◌then◌else◌, length, get_elem?, ltb, leb, signed_lt,
}
use home_bench.Protocol.Interval.{second}
use home_bench.Client.Ledger.{FileLedger, next_index, add_bw, bw_snapshot}
use home_bench.Client.Stats.{Stats}
use home_bench.Client.Bandwidth.{ReadEnd, Call, created, wrote, recorded, write_file_direct}

-- What one turn of the loop reads and is told.
pub record Turn (F : Type 0) : Type 0 where
  pub meanwhile : FileLedger → FileLedger  -- what other goroutines do to the ledger before it
  pub past_deadline : Bool
  pub cancelled : Bool  -- ctx.Done() at the head of the loop
  pub elapsed : F  -- in seconds
  pub sleep_cancelled : Bool  -- sleepCtx returns an error
  pub remain_short : Bool  -- less than 20 ms to the deadline
  pub parent_made : Bool  -- EnsureParent
  pub direct_opened : Bool
  pub plain_opened : Bool  -- the second try
  pub refreshed_at : ℕ
  pub opened_at : ℕ
  pub done_at : ℕ
  pub seed_parent_made : Bool
  pub seed_opened : Bool
  pub seed_write : ℕ → ℕ → ℕ × Bool
  pub write : ℕ → ℕ × Bool  -- the bytes written, and whether there was no error
  pub read : ℕ → ℕ × ReadEnd
  pub late : Bool  -- past the deadline after an error
  pub late_cancelled : Bool

-- The variables of runBandwidth, with the client's ledger and counters. `calls` is no variable of the
-- source: it notes what became of the files.
pub record Transfer (F : Type 0) : Type 0 where
  pub read_files : List ℕ
  pub read_cursor : ℕ
  pub transferred : F
  pub file : Bool  -- a file is open
  pub file_off : ℕ
  pub writing : Bool
  pub active_idx : Option ℕ  -- none for -1
  pub file_op_start : Option ℕ
  pub last_refresh : Option ℕ
  pub ledger : FileLedger
  pub stats : Stats F
  pub calls : List Call

-- time.Since(lastRefresh) > time.Second, from the zero time at first
unfoldable pub is_stale : ℕ → Option ℕ → Bool
is_stale now none = true
is_stale now (some at) = ltb (at + second) now

module _ {F : Type 0} where
  -- closeFile
  unfoldable pub close_file : Transfer F → Transfer F
  close_file s = record s {
    file = false;
    file_off = 0;
    writing = false;
    active_idx = none;
    file_op_start = none;
  }

  -- refreshReads
  unfoldable pub refresh_reads : ℕ → Transfer F → Transfer F
  refresh_reads now s =
      let files = bw_snapshot s.ledger in
      record s {
        read_files = files;
        last_refresh = some now;
        read_cursor =
            if length files == 0
            then s.read_cursor
            else if leb (length files) s.read_cursor
            then 0
            else s.read_cursor;
      }

  -- openNextWrite, and whether it returned nil
  unfoldable pub open_next_write : Turn F → Transfer F → Transfer F × Bool
  unfolding close_file
  open_next_write t s =
      let taken = next_index s.ledger in
      let ready = record (close_file s) { ledger = taken.1 } in
      if not t.parent_made
      then (ready, false)
      else if t.direct_opened || t.plain_opened
      then (
        record ready {
          file = true;
          writing = true;
          active_idx = some taken.0;
          file_op_start = some t.opened_at;
          calls = created taken.0 ∷ s.calls;
        },
        true,
      )
      else (ready, false)

  -- openNextRead where there is no bandwidth file yet: a first one is written, and whether that went
  -- well
  unfoldable pub seed_file : ℕ → Turn F → Transfer F → Transfer F × Bool
  unfolding refresh_reads
  seed_file size t s =
      let taken = next_index s.ledger in
      let ready = record s { ledger = taken.1 } in
      let result = write_file_direct t.seed_write size in
      let filled = record ready { calls = wrote taken.0 result.0 ∷ created taken.0 ∷ s.calls } in
      if not t.seed_parent_made
      then (ready, false)
      else if not t.seed_opened
      then (ready, false)
      else if not result.1
      then (filled, false)
      else (
        refresh_reads t.refreshed_at (record filled {
          ledger = add_bw taken.0 taken.1;
          calls = recorded taken.0 ∷ filled.calls;
        }),
        true,
      )

  -- The end of openNextRead: the next file is opened.
  unfoldable pub open_read : Turn F → Transfer F → Transfer F × Bool
  open_read t s = elim (get_elem? s.read_files (s.read_cursor % length s.read_files)) [
    | none ↦ (s, false)
    | some idx ↦
        let moved = record s { read_cursor = s.read_cursor + 1 } in
        if t.direct_opened || t.plain_opened
        then (
          record moved {
            file = true;
            writing = false;
            active_idx = some idx;
            file_op_start = some t.opened_at;
          },
          true,
        )
        else (moved, false)
  ]

  -- openNextRead
  unfoldable pub open_next_read : ℕ → Turn F → Transfer F → Transfer F × Bool
  open_next_read size t s =
      let closed = close_file s in
      let fresh =
        if length closed.read_files == 0 || is_stale t.refreshed_at closed.last_refresh
        then refresh_reads t.refreshed_at closed
        else closed in
      let seeded = if length fresh.read_files == 0 then seed_file size t fresh else (fresh, true) in
      if not seeded.1
      then (seeded.0, false)
      else if length seeded.0.read_files == 0
      then (seeded.0, false)
      else open_read t seeded.0

  -- AddBW of the file that was written, if any.
  unfoldable pub record_active : Transfer F → Transfer F
  record_active s = elim s.active_idx [
    | none ↦ s
    | some idx ↦
        if signed_lt idx 0
        then s
        else record s { ledger = add_bw idx s.ledger; calls = recorded idx ∷ s.calls }
  ]
