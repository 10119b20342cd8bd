-- ===== src/Client/Ledger/Removal.antt =====
-- NextExistingPath of internal/client/worker.go in the final delete, where the entries it passes go.
use home_bench.Base.{
  ℕ, zero, suc, ◌+◌, ◌≡◌, ap, sym, ◌∙◌, ◌⊎◌, inl, inr, Bool, true, List, [], ◌∷◌, Option, some,
  Option-cases, ◌==◌, nat_eq, eq_iff, arith, if_elim, Bool-cases, length, get_elem?, ltb, Text,
  contains,
}
use home_bench.Client.Ledger.Kept.{Cursor-cases}
use home_bench.Client.Ledger.{
  FileLedger, remove_at, pass_entry, scan_entry, scan_round, scan_paths, next_existing_path,
}

-- What stands in a list is still there after an entry went, or is that entry.
contains-remove_at :
    (i pos : ℕ) (is : List ℕ)
    → contains i is ≡ true
    → (contains i (remove_at pos is) ≡ true) ⊎ (get_elem? is pos ≡ some i)
unfolding contains remove_at
contains-remove_at i pos [] h = ground (arith, h)
contains-remove_at i zero (j ∷ is) h = elim (Bool-cases (j == i)) [
  | inl e ↦ inr (ap some ((eq_iff j i).0 e))
  | inr n ↦ inl (ground (arith, h, n))
]
contains-remove_at i (suc pos) (j ∷ is) h = elim (Bool-cases (j == i)) [
  | inl e ↦ inl (ground (arith, e))
  | inr n ↦ elim (contains-remove_at i pos is (ground (arith, h, n))) [
    | inl c ↦ inl (ground (arith, c))
    | inr c ↦ inr c
  ]
]

module _ (stat : Text → Bool) (path : ℕ → Text) where
  -- No file of an index that exists is lost by a call.
  abbrev Found : ℕ → Option Text × FileLedger → Type 0
  Found i r = (contains i r.1.indices ≡ true) ⊎ (r.0 ≡ some (path i))

  module _ (i : ℕ) (there : stat (path i) ≡ true) where
    scan_entry-Found :
        (go_on : FileLedger → Option Text × FileLedger) (l : FileLedger)
        → ((m : FileLedger) → contains i m.indices ≡ true → Found i (go_on m))
        → contains i l.indices ≡ true
        → Found i (scan_entry stat path true go_on l (get_elem? l.indices l.del_pos))
    unfolding scan_entry pass_entry
    scan_entry-Found go_on l h c = elim (Option-cases (get_elem? l.indices l.del_pos)) [
      | inl q ↦ rw q (inl c)
      | inr (idx, q) ↦ rw q (
          if_elim (Found i) (stat (path idx))
            (λ _. elim (contains-remove_at i l.del_pos l.indices c) [
              | inl c' ↦ inl c'
              | inr e ↦
                  let same : some idx ≡ some i = sym q ∙ e in
                  let same' : idx ≡ i = ground (arith, same) in inr (ap (λ k. some (path k)) same')
            ])
            (λ gone. elim (contains-remove_at i l.del_pos l.indices c) [
              | inl c' ↦ h _ c'
              | inr e ↦
                  let same : some idx ≡ some i = sym q ∙ e in
                  let same' : idx ≡ i = ground (arith, same) in
                  absurd (ground (arith, ap (λ k. stat (path k)) same', gone, there))
            ]))
    ]

    scan_paths-Found :
        (rounds scanned : ℕ) (l : FileLedger)
        → contains i l.indices ≡ true
        → Found i (scan_paths stat path true rounds scanned l)
    unfolding scan_paths scan_round
    scan_paths-Found zero scanned l c = inl c
    scan_paths-Found (suc rounds) scanned l c =
        let go_on = scan_paths stat path true rounds (scanned + 1) in
        let later = scan_entry-Found go_on l (scan_paths-Found rounds (scanned + 1)) c in
        let later' =
          scan_entry-Found go_on (record l { del_pos = 0 }) (scan_paths-Found rounds (scanned + 1))
            c in
        if_elim (Found i) (ltb scanned (length l.indices))
          (λ _. elim (Cursor-cases stat path true l) [
            | inl e ↦ rw (scan_round, e) (inl c)
            | inr (inl e) ↦ rw (scan_round, e) later
            | inr (inr e) ↦ rw (scan_round, e) later'
          ])
          (λ _. inl c)

    -- The final delete loses no file: after NextExistingPath with removeFromLedger set, an index of
    -- the ledger whose file exists is still in the ledger, or its path is the one returned.
    pub removal_keeps_existing :
        (l : FileLedger)
        → contains i l.indices ≡ true
        → (contains i (next_existing_path stat path true l).1.indices ≡ true)
          ⊎ ((next_existing_path stat path true l).0 ≡ some (path i))
    unfolding next_existing_path
    removal_keeps_existing l c =
        if_elim (Found i) (length l.indices == 0) (λ _. inl c)
          (λ _. scan_paths-Found (length l.indices) 0 l c)
