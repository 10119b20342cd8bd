-- ===== src/Client/Bandwidth/Files.antt =====
-- What became of the bandwidth files of internal/client/worker.go.
use home_bench.Base.{
  ℕ, ◌+◌, ◌%◌, ◌≤◌, ◌≡◌, refl, inl, inr, Bool, true, false, not, ◌||◌, List, [], ◌∷◌, Option, none,
  some, ◌==◌, nat_eq, eq_self, if◌then◌else◌, if_elim, Option-cases, length, get_elem?, arith,
}
use home_bench.Client.Ledger.{next_index}
use home_bench.Client.Bandwidth.{direct_align, Call, created, wrote, recorded, write_file_direct}
use home_bench.Client.Bandwidth.Chunks.{write_file_direct_whole}
use home_bench.Client.Bandwidth.Loop.{
  Turn, Transfer, close_file, refresh_reads, open_next_write, is_stale, seed_file, open_read,
  open_next_read,
}

abbrev pub plus : ℕ → Option ℕ → Option ℕ
plus n none = none
plus n (some m) = some (m + n)

-- The bytes that went to a file since it was created last.
abbrev pub bytes_in : ℕ → List Call → Option ℕ
bytes_in i [] = none
bytes_in i (created j ∷ calls) = if j == i then some 0 else bytes_in i calls
bytes_in i (wrote j n ∷ calls) = if j == i then plus n (bytes_in i calls) else bytes_in i calls
bytes_in i (recorded j ∷ calls) = bytes_in i calls

-- Each file that was recorded had been created and held that many bytes.
abbrev pub RecordedWhole : ℕ → List Call → Type 0
RecordedWhole size [] = Unit
RecordedWhole size (created i ∷ calls) = RecordedWhole size calls
RecordedWhole size (wrote i n ∷ calls) = RecordedWhole size calls
RecordedWhole size (recorded i ∷ calls) = (bytes_in i calls ≡ some size) × RecordedWhole size calls

-- What io.Writer promises: no more bytes than it was given, and fewer only with an error.
pub record IsHonest {F : Type 0} (t : Turn F) : Type 0 where
  pub bounded : (n : ℕ) → (t.write n).0 ≤ n
  pub complete : (n : ℕ) → (t.write n).1 ≡ true → (t.write n).0 ≡ n
  pub seed_complete : (k n : ℕ) → (t.seed_write k n).1 ≡ true → (t.seed_write k n).0 ≡ n

-- The file that is being written holds the bytes up to the offset.
abbrev pub Active : ℕ → List Call → ℕ → Option ℕ → Bool → Type 0
Active size calls off none w = Unit
Active size calls off (some i) false = Unit
Active size calls off (some i) true = (bytes_in i calls ≡ some off) × (off ≤ size)

module _ {F : Type 0} (size : ℕ) where
  abbrev pub Written : Transfer F → Type 0
  Written s = RecordedWhole size s.calls × Active size s.calls s.file_off s.active_idx s.writing

  pub close_file-Written : (s : Transfer F) → RecordedWhole size s.calls → Written (close_file s)
  unfolding close_file
  close_file-Written s h = (h, tt)

  pub open_next_write-Written :
      (t : Turn F) (s : Transfer F) → Written s → Written (open_next_write t s).0
  unfolding open_next_write
  open_next_write-Written t s (h, a) =
      if_elim (λ (r : Transfer F × Bool). Written r.0) (not t.parent_made) (λ _. (h, tt))
        (λ _.
          if_elim (λ (r : Transfer F × Bool). Written r.0) (t.direct_opened || t.plain_opened)
            (λ _. (h, rw (eq_self (next_index s.ledger).0) (refl, omega arith))) (λ _. (h, tt)))

  seed_file-Written :
      (t : Turn F) (s : Transfer F)
      → size % direct_align ≡ 0
      → IsHonest t
      → RecordedWhole size s.calls × (s.active_idx ≡ none)
      → RecordedWhole size (seed_file size t s).0.calls × ((seed_file size t s).0.active_idx ≡ none)
  unfolding seed_file
  seed_file-Written t s whole honest (h, a) =
      let P : Transfer F × Bool → Type 0 =
        λ r. RecordedWhole size r.0.calls × (r.0.active_idx ≡ none) in
      if_elim P (not t.seed_parent_made) (λ _. (h, a))
        (λ _.
          if_elim P (not t.seed_opened) (λ _. (h, a))
            (λ _.
              if_elim P (not (write_file_direct t.seed_write size).1) (λ _. (h, a))
                (λ ok. (
                  (
                    rw
                        (
                          eq_self (next_index s.ledger).0,
                          write_file_direct_whole t.seed_write honest.seed_complete size whole
                              (ground (arith, ok)),
                        )
                        (ground arith),
                    h,
                  ),
                  a,
                ))))

  -- A file that is opened to be read is not one that is written.
  open_read-Written :
      (t : Turn F) (s : Transfer F)
      → RecordedWhole size s.calls × (s.active_idx ≡ none)
      → Written (open_read t s).0
  unfolding open_read
  open_read-Written t s (h, a) =
      elim (Option-cases (get_elem? s.read_files (s.read_cursor % length s.read_files))) [
        | inl e ↦ rw (open_read, e) (h, rw a tt)
        | inr (idx, e) ↦
            rw (open_read, e)
              (if_elim (λ (r : Transfer F × Bool). Written r.0) (t.direct_opened || t.plain_opened)
                (λ _. (h, tt)) (λ _. (h, rw a tt)))
      ]

  pub open_next_read-Written :
      (t : Turn F) (s : Transfer F)
      → size % direct_align ≡ 0
      → IsHonest t
      → Written s
      → Written (open_next_read size t s).0
  unfolding open_next_read close_file refresh_reads
  open_next_read-Written t s whole honest (h, _) =
      let P : Transfer F → Type 0 = λ r. RecordedWhole size r.calls × (r.active_idx ≡ none) in
      let Q : Transfer F × Bool → Type 0 = λ r. Written r.0 in
      let closed = close_file s in
      let fresh =
        if length closed.read_files == 0 || is_stale t.refreshed_at closed.last_refresh
        then refresh_reads t.refreshed_at closed
        else closed in
      let seeded = if length fresh.read_files == 0 then seed_file size t fresh else (fresh, true) in
      let p : P fresh =
        if_elim P (length closed.read_files == 0 || is_stale t.refreshed_at closed.last_refresh)
          (λ _. (h, refl)) (λ _. (h, refl)) in
      let q : P seeded.0 =
        if_elim (λ (r : Transfer F × Bool). P r.0) (length fresh.read_files == 0)
          (λ _. seed_file-Written t fresh whole honest p) (λ _. p) in
      let idle : Written seeded.0 = (q.0, rw q.1 tt) in
      if_elim Q (not seeded.1) (λ _. idle)
        (λ _.
          if_elim Q (length seeded.0.read_files == 0) (λ _. idle)
            (λ _. open_read-Written t seeded.0 q))
