-- ===== src/Client/Stats/Reports.antt =====
-- What the reports of SnapshotAndReset (internal/client/worker.go) carry away of the counters.
use home_bench.Base.{
  ℕ, ◌+◌, ◌≡◌, inl, inr, true, List, [], ◌∷◌, arith, ◌==◌, nat_eq, if◌then◌else◌, Bool-cases, refl,
  Float64,
}
use home_bench.Protocol.Latency.{add_word}
use home_bench.Protocol.Sample.{MetricSample}
use home_bench.Client.Stats.{
  Stats, Counter, reads, writes, creates, deletes, bytes_read, bytes_written, git_clones, untars,
  add_to, counter, swap, snapshot_and_reset,
}

-- An addition of a goroutine that works, a Swap of the one that reports, and a whole report, at its time.
pub data Access : Type 0 where
  adds : Counter → ℕ → Access
  swaps : Counter → Access
  reports : ℕ → Access

abbrev pub place : Counter → ℕ
place reads = 0
place writes = 1
place creates = 2
place deletes = 3
place bytes_read = 4
place bytes_written = 5
place git_clones = 6
place untars = 7

-- What the accesses add to a counter.
abbrev pub added : Counter → List Access → ℕ
added c [] = 0
added c (adds d n ∷ rest) = if place d == place c then n + added c rest else added c rest
added c (swaps d ∷ rest) = added c rest
added c (reports now ∷ rest) = added c rest

-- What a sample reports of a counter.
abbrev pub reported : {F : Type 0} → Counter → MetricSample F → ℕ
reported reads m = m.read_ops
reported writes m = m.write_ops
reported creates m = m.create_ops
reported deletes m = m.delete_ops
reported bytes_read m = m.read_bytes
reported bytes_written m = m.write_bytes
reported git_clones m = m.git_files
reported untars m = m.untar_files

module _ {F : Type 0} ⦃f : Float64 F⦄ where
  abbrev pub access : Access → Stats F → Stats F
  access (adds c n) s = add_to c n s
  access (swaps c) s = (swap c s).1
  access (reports now) s = (snapshot_and_reset now s).1

  abbrev pub accesses : List Access → Stats F → Stats F
  accesses [] s = s
  accesses (a ∷ rest) s = accesses rest (access a s)

  -- The sum of what they carry away of it.
  abbrev pub carried : Counter → List Access → Stats F → ℕ
  carried c [] s = 0
  carried c (adds d n ∷ rest) s = carried c rest (add_to d n s)
  carried c (swaps d ∷ rest) s =
      if place d == place c
      then (swap d s).0 + carried c rest (swap d s).1
      else carried c rest (swap d s).1
  carried c (reports now ∷ rest) s =
      reported c (snapshot_and_reset now s).0 + carried c rest (snapshot_and_reset now s).1

  counter-add_to :
      (d c : Counter) (n : ℕ) (s : Stats F)
      → counter c (add_to d n s)
        ≡ (if place d == place c then add_word (counter c s) n else counter c s)
  unfolding counter add_to
  counter-add_to reads c n s = ground arith
  counter-add_to _ c n s = ground arith

  counter-swap :
      (d c : Counter) (s : Stats F)
      → counter c (swap d s).1 ≡ (if place d == place c then 0 else counter c s)
  unfolding counter swap
  counter-swap reads c s = ground arith
  counter-swap _ c s = ground arith

  swap-counter :
      (d c : Counter) (s : Stats F) → (place d == place c) ≡ true → (swap d s).0 ≡ counter c s
  unfolding counter swap
  swap-counter reads c s h = ground (arith, h)
  swap-counter _ c s h = ground (arith, h)

  counter-snapshot_and_reset :
      (c : Counter) (now : ℕ) (s : Stats F)
      → (reported c (snapshot_and_reset now s).0 ≡ counter c s)
        × (counter c (snapshot_and_reset now s).1 ≡ 0)
  unfolding counter snapshot_and_reset swap
  counter-snapshot_and_reset reads now s = (refl, refl)
  counter-snapshot_and_reset writes now s = (refl, refl)
  counter-snapshot_and_reset creates now s = (refl, refl)
  counter-snapshot_and_reset deletes now s = (refl, refl)
  counter-snapshot_and_reset bytes_read now s = (refl, refl)
  counter-snapshot_and_reset bytes_written now s = (refl, refl)
  counter-snapshot_and_reset git_clones now s = (refl, refl)
  counter-snapshot_and_reset untars now s = (refl, refl)

  -- However the additions of the goroutines that work come between the Swaps of the one that reports,
  -- or between whole reports of SnapshotAndReset: of each counter, what the Swaps carry away, what its
  -- field comes to in the samples of the whole reports, and what is left of it are together what stood
  -- there and what was added, as 64-bit numbers. No operation is lost between two reports or reported
  -- twice.
  pub counter-accesses :
      (c : Counter) (rest : List Access) (s : Stats F)
      → add_word (carried c rest s) (counter c (accesses rest s))
        ≡ add_word (counter c s) (added c rest)
  counter-accesses c [] s = omega arith
  counter-accesses c (adds d n ∷ rest) s = elim (Bool-cases (place d == place c)) [
    | inl e ↦ ground (arith, counter-accesses c rest (add_to d n s), counter-add_to d c n s, e)
    | inr e ↦ ground (arith, counter-accesses c rest (add_to d n s), counter-add_to d c n s, e)
  ]
  counter-accesses c (swaps d ∷ rest) s = elim (Bool-cases (place d == place c)) [
    | inl e ↦
        ground
          (arith, counter-accesses c rest (swap d s).1, counter-swap d c s, swap-counter d c s e, e)
    | inr e ↦ ground (arith, counter-accesses c rest (swap d s).1, counter-swap d c s, e)
  ]
  counter-accesses c (reports now ∷ rest) s =
      let (all, none_left) = counter-snapshot_and_reset c now s in
      omega (arith, counter-accesses c rest (snapshot_and_reset now s).1, all, none_left)
