-- ===== src/Client/Deletion/Kept.antt =====
-- What the delete phases of internal/client/worker.go leave in the ledger, and what they count.
use mathlib.Core.Path.{subst}
use home_bench.Base.{
  ℕ, ◌+◌, ◌%◌, ◌^◌, ◌≡◌, sym, ap, ◌⊎◌, inl, inr, Bool, true, false, List, [], ◌∷◌, ◌++◌, Option,
  none, some, if_elim, length, length-append, arith, All, contains, contains-append, eq_self,
  Float64, Text, nat_eq, list_eq,
}
use home_bench.Client.Ledger.{FileLedger, next_existing_path}
use home_bench.Client.Ledger.Scan.{next_existing_path_lem}
use home_bench.Client.Ledger.Removal.{removal_keeps_existing}
use home_bench.Client.Stats.{Stats, add_to, observe_delete}
use home_bench.Client.Pace.{Exit, paced_elim, turns_elim}
use home_bench.Client.Deletion.{
  DeleteTurn, Deleting, or_on_disk, remove_file, delete_next, delete_turn, run_delete,
}

module _ {F : Type 0} ⦃f : Float64 F⦄ (path : ℕ → Text) (i : ℕ) (stats : Stats F)
    (removing : Bool) where
  -- The file of an index exists whenever a turn looks, and no other goroutine touches the ledger.
  pub record Stays (t : DeleteTurn F) : Type 0 where
    pub alone : (l : FileLedger) → t.meanwhile l ≡ l
    pub there : t.stat (path i) ≡ true

  -- The index is in the ledger or its path was handed to os.Remove; each file removed is counted once.
  pub record IsKept (s : Deleting F) : Type 0 where
    pub known : (contains i s.ledger.indices ≡ true) ⊎ (contains (path i) s.tried ≡ true)
    pub stays : removing ≡ false → contains i s.ledger.indices ≡ true
    pub ops : s.stats.delete_ops % 2 ^ 64 ≡ (stats.delete_ops + length s.removed) % 2 ^ 64

  -- Neither scan of the ledger loses a file that exists.
  scan_keeps :
      (stat : Text → Bool) (remove : Bool) (l : FileLedger)
      → stat (path i) ≡ true
      → contains i l.indices ≡ true
      → (contains i (next_existing_path stat path remove l).1.indices ≡ true)
        ⊎ ((next_existing_path stat path remove l).0 ≡ some (path i))
  scan_keeps stat true l there c = removal_keeps_existing stat path i there l c
  scan_keeps stat false l there c = inl (rw (next_existing_path_lem stat path l).1 c)

  scan_stays :
      (stat : Text → Bool) (remove : Bool) (l : FileLedger)
      → (remove ≡ false → contains i l.indices ≡ true)
      → remove ≡ false
      → contains i (next_existing_path stat path remove l).1.indices ≡ true
  scan_stays stat true l st e = absurd (ground (arith, e))
  scan_stays stat false l st e = rw (next_existing_path_lem stat path l).1 (st e)

  delete_next-IsKept :
      (t : DeleteTurn F) (o : Option Text) (s : Deleting F)
      → s.stats.delete_ops % 2 ^ 64 ≡ (stats.delete_ops + length s.removed) % 2 ^ 64
      → (contains i s.ledger.indices ≡ true)
        ⊎ (contains (path i) s.tried ≡ true)
        ⊎ (o ≡ some (path i))
      → (removing ≡ false → contains i s.ledger.indices ≡ true)
      → IsKept (delete_next t o s).0
  unfolding delete_next remove_file add_to observe_delete contains
  delete_next-IsKept t none s ops (inl c) st = record { known = inl c; stays = st; ops = ops }
  delete_next-IsKept t none s ops (inr (inl c)) st = record { known = inr c; stays = st; ops = ops }
  delete_next-IsKept t none s ops (inr (inr e)) st = absurd (ground (arith, e))
  delete_next-IsKept t (some p) s ops k st =
      let more : length (s.removed ++ (p ∷ [])) ≡ length s.removed + 1 =
        omega (arith, length-append s.removed (p ∷ [])) in
      let known : (contains i s.ledger.indices ≡ true)
          ⊎ (contains (path i) (s.tried ++ (p ∷ [])) ≡ true) =
        elim k [
          | inl c ↦ inl c
          | inr (inl c) ↦ inr (ground (arith, contains-append (path i) s.tried (p ∷ []), c))
          | inr (inr e) ↦
              let same : p ≡ path i = ground (arith, e) in
              inr (
                rw same (
                  ground (arith, contains-append (path i) s.tried (path i ∷ []), eq_self (path i))))
        ] in
      if_elim IsKept t.removes
        (λ _. record { known = known; stays = st; ops = rw more (omega (arith, ops)) })
        (λ _. record { known = known; stays = st; ops = ops })

  delete_turn-IsKept :
      (rate : F) (t : DeleteTurn F) (s : Deleting F)
      → Stays t
      → IsKept s
      → IsKept (delete_turn path removing rate t s).0
  unfolding delete_turn
  delete_turn-IsKept rate t s stays v =
      let now = record s { ledger = t.meanwhile s.ledger } in
      let same : IsKept now =
        subst (λ l. IsKept (record s { ledger = l })) (sym (stays.alone s.ledger)) v in
      let found = next_existing_path t.stat path removing now.ledger in
      let known : (contains i found.1.indices ≡ true)
          ⊎ (contains (path i) s.tried ≡ true)
          ⊎ (or_on_disk found.0 t.on_disk ≡ some (path i)) =
        elim same.known [
          | inl c ↦ elim (scan_keeps t.stat removing now.ledger stays.there c) [
            | inl c' ↦ inl c'
            | inr e ↦ inr (inr (ap (λ o. or_on_disk o t.on_disk) e))
          ]
          | inr c ↦ inr (inl c)
        ] in
      paced_elim IsKept t.clock (f.fle (f.fmul rate t.clock.elapsed) s.deleted) now
        (delete_next t (or_on_disk found.0 t.on_disk) (record now { ledger = found.1 })) same
        (delete_next-IsKept t (or_on_disk found.0 t.on_disk) (record now { ledger = found.1 })
          same.ops known (scan_stays t.stat removing now.ledger same.stays))

  -- However the turns of runDelete go, in the middle of a test or at its end: an index of the ledger
  -- whose file exists whenever a turn looks, while no other goroutine touches the ledger, is still in
  -- the ledger or its path was handed to os.Remove, whether that removed the file or not; in the middle of
  -- a test, where removeFromLedger is unset, it is still in the ledger; and DeleteOps rises by the number of files that
  -- os.Remove removed, as a 64-bit number.
  pub run_delete-IsKept :
      (rate : F) (sleep_cancelled : Bool) (ts : List (DeleteTurn F)) (ledger : FileLedger)
      → All Stays ts
      → contains i ledger.indices ≡ true
      → IsKept (run_delete path removing rate sleep_cancelled ts ledger stats).0
  unfolding run_delete
  run_delete-IsKept rate sleep_cancelled ts ledger stays c =
      let s : Deleting F = record {
        deleted = f.of_ℕ 0;
        ledger = ledger;
        stats = stats;
        tried = [];
        removed = [];
      } in
      let fresh : IsKept s = record { known = inl c; stays = λ _. c; ops = omega arith } in
      if_elim (λ (r : Deleting F × Option Exit). IsKept r.0) (f.fle rate (f.of_ℕ 0)) (λ _. fresh)
        (λ _.
          turns_elim IsKept Stays (delete_turn path removing rate)
            (λ t s. delete_turn-IsKept rate t s) ts s stays fresh)
