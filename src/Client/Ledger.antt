-- ===== src/Client/Ledger.antt =====
-- internal/client/worker.go: FileLedger, the files that a client has created. Each method holds the
-- mutex, and is one step. An index is an int64, as its 64-bit pattern.
pub mod Settled
mod Kept
pub mod Fresh
pub mod Scan
pub mod Removal
pub mod Early
mod Tests
use home_bench.Base.{
  ℕ, zero, suc, ◌+◌, ◌%◌, ◌^◌, Bool, true, false, List, [], ◌∷◌, ◌++◌, Option, none, some, ◌==◌,
  nat_eq, if◌then◌else◌, length, get_elem?, ltb, leb, signed_lt, Text,
}

pub record FileLedger : Type 0 where
  pub indices : List ℕ
  pub bw_indices : List ℕ
  pub next : ℕ
  pub del_pos : ℕ

-- NewFileLedger
abbrev pub new_file_ledger : FileLedger
new_file_ledger = record { indices = []; bw_indices = []; next = 0; del_pos = 0 }

-- `idx + 1` and `next + 1`
abbrev pub index_after : ℕ → ℕ
index_after idx = (idx + 1) % 2 ^ 64

-- The end of Add and of AddBW.
unfoldable pub next_past : ℕ → ℕ → ℕ
next_past idx next = if signed_lt idx next then next else index_after idx

-- Add
unfoldable pub add_index : ℕ → FileLedger → FileLedger
add_index idx l = record l { indices = l.indices ++ (idx ∷ []); next = next_past idx l.next }

-- AddBW
unfoldable pub add_bw : ℕ → FileLedger → FileLedger
add_bw idx l = record l {
  indices = l.indices ++ (idx ∷ []);
  bw_indices = l.bw_indices ++ (idx ∷ []);
  next = next_past idx l.next;
}

-- NextIndex
unfoldable pub next_index : FileLedger → ℕ × FileLedger
next_index l = (l.next, record l { next = index_after l.next })

-- Count
unfoldable pub count : FileLedger → ℕ
count l = length l.indices

-- Snapshot
unfoldable pub snapshot : FileLedger → List ℕ
snapshot l = l.indices

-- BWSnapshot
unfoldable pub bw_snapshot : FileLedger → List ℕ
bw_snapshot l = l.bw_indices

-- ClearBW
unfoldable pub clear_bw : FileLedger → FileLedger
clear_bw l = record l { bw_indices = [] }

-- ResetDeleteCursor
unfoldable pub reset_delete_cursor : FileLedger → FileLedger
reset_delete_cursor l = record l { del_pos = 0 }

-- Clear
unfoldable pub clear : FileLedger → FileLedger
clear l = record { indices = []; bw_indices = []; next = 0; del_pos = 0 }

-- `append(xs[:pos], xs[pos+1:]...)`
unfoldable pub remove_at {ℓ} : {A : Type ℓ} → ℕ → List A → List A
remove_at pos [] = []
remove_at zero (x ∷ xs) = xs
remove_at (suc pos) (x ∷ xs) = x ∷ remove_at pos xs

-- os.Stat succeeds for a path, the path of an index, and removeFromLedger.
module _ (stat : Text → Bool) (path : ℕ → Text) (removing : Bool) where
  -- The entry at the cursor is left behind: it goes, or the cursor moves on.
  unfoldable pub pass_entry : FileLedger → FileLedger
  pass_entry l =
      if removing
      then record l { indices = remove_at l.del_pos l.indices }
      else record l { del_pos = l.del_pos + 1 }

  -- The cursor at an entry, or nothing where the final delete has come to the end.
  unfoldable pub wrap_cursor : FileLedger → Option FileLedger
  wrap_cursor l =
      if leb (length l.indices) l.del_pos
      then if removing then none else some (record l { del_pos = 0 })
      else some l

  -- The entry at the cursor: its path exists, or the loop goes on to its later rounds.
  unfoldable pub scan_entry :
      (FileLedger → Option Text × FileLedger) → FileLedger → Option ℕ → Option Text × FileLedger
  scan_entry later at none = (none, at)
  scan_entry later at (some idx) =
      let more = later (pass_entry at) in
      if stat (path idx) then (some (path idx), pass_entry at) else more

  -- A round of the loop of NextExistingPath.
  unfoldable pub scan_round :
      (FileLedger → Option Text × FileLedger) → FileLedger → Option Text × FileLedger
  scan_round later l = elim (wrap_cursor l) [
    | none ↦ (none, l)
    | some at ↦ scan_entry later at (get_elem? at.indices at.del_pos)
  ]

  -- The loop. `scanned` rises in each round, and the list does not grow.
  unfoldable pub scan_paths : ℕ → ℕ → FileLedger → Option Text × FileLedger
  scan_paths zero scanned l = (none, l)
  scan_paths (suc rounds) scanned l =
      let round = scan_round (scan_paths rounds (scanned + 1)) l in
      if ltb scanned (length l.indices) then round else (none, l)

  -- NextExistingPath
  unfoldable pub next_existing_path : FileLedger → Option Text × FileLedger
  next_existing_path l =
      if length l.indices == 0 then (none, l) else scan_paths (length l.indices) 0 l
