-- ===== src/Client/Ledger/Kept.antt =====
-- What NextExistingPath of internal/client/worker.go leaves as it was, and the cases of its cursor.
use home_bench.Base.{
  ℕ, zero, suc, ◌+◌, ◌≡◌, refl, ◌∙◌, ◌⊎◌, inl, inr, Bool, true, List, Option, none, some, ◌==◌,
  nat_eq, if_elim, Bool-cases, length, get_elem?, ltb, leb, Text,
}
use home_bench.Client.Ledger.{
  FileLedger, remove_at, pass_entry, wrap_cursor, scan_entry, scan_round, scan_paths,
  next_existing_path,
}

-- Where the cursor comes to stand.
module _ (stat : Text → Bool) (path : ℕ → Text) (removing : Bool) where
  pub Cursor-cases :
      (l : FileLedger)
      → (wrap_cursor stat path removing l ≡ none)
        ⊎ (wrap_cursor stat path removing l ≡ some l)
        ⊎ (wrap_cursor stat path removing l ≡ some (record l { del_pos = 0 }))
  unfolding wrap_cursor
  Cursor-cases l = elim (Bool-cases (leb (length l.indices) l.del_pos)) [
    | inl h ↦
        rw h
          (elim (Bool-cases removing) [ inl r ↦ rw r (inl refl) | inr r ↦ rw r (inr (inr refl)) ])
    | inr h ↦ rw h (inr (inl refl))
  ]

-- What a call of NextExistingPath leaves as it was.
module _ (removing : Bool) (Q : List ℕ → Type 0)
    (closed : removing ≡ true → (pos : ℕ) (is : List ℕ) → Q is → Q (remove_at pos is))
    (stat : Text → Bool) (path : ℕ → Text) where
  abbrev pub Keeps : FileLedger → FileLedger → Type 0
  Keeps l m = (m.next ≡ l.next) × (m.bw_indices ≡ l.bw_indices) × Q m.indices

  pass_entry-Keeps : (l : FileLedger) → Q l.indices → Keeps l (pass_entry stat path removing l)
  unfolding pass_entry
  pass_entry-Keeps l q =
      if_elim (Keeps l) removing (λ r. (refl, refl, closed r l.del_pos l.indices q))
        (λ _. (refl, refl, q))

  module _ (go_on : FileLedger → Option Text × FileLedger)
      (h : (m : FileLedger) → Q m.indices → Keeps m (go_on m).1) where
    scan_entry-Keeps :
        (at : FileLedger) (o : Option ℕ)
        → Q at.indices
        → Keeps at (scan_entry stat path removing go_on at o).1
    unfolding scan_entry
    scan_entry-Keeps at none q = (refl, refl, q)
    scan_entry-Keeps at (some idx) q =
        let (a, b, c) = pass_entry-Keeps at q in
        let (a', b', c') = h (pass_entry stat path removing at) c in
        if_elim (λ (r : Option Text × FileLedger). Keeps at r.1) (stat (path idx)) (λ _. (a, b, c))
          (λ _. (a' ∙ a, b' ∙ b, c'))

    scan_round-Keeps :
        (l : FileLedger) → Q l.indices → Keeps l (scan_round stat path removing go_on l).1
    unfolding scan_round
    scan_round-Keeps l q = elim (Cursor-cases stat path removing l) [
      | inl e ↦ rw (scan_round, e) (refl, refl, q)
      | inr (inl e) ↦ rw (scan_round, e) (scan_entry-Keeps l (get_elem? l.indices l.del_pos) q)
      | inr (inr e) ↦
          rw (scan_round, e) (scan_entry-Keeps (record l { del_pos = 0 }) (get_elem? l.indices 0) q)
    ]

  scan_paths-Keeps :
      (rounds scanned : ℕ) (l : FileLedger)
      → Q l.indices
      → Keeps l (scan_paths stat path removing rounds scanned l).1
  unfolding scan_paths
  scan_paths-Keeps zero scanned l q = (refl, refl, q)
  scan_paths-Keeps (suc rounds) scanned l q =
      if_elim (λ (r : Option Text × FileLedger). Keeps l r.1) (ltb scanned (length l.indices))
        (λ _.
          scan_round-Keeps (scan_paths stat path removing rounds (scanned + 1))
            (scan_paths-Keeps rounds (scanned + 1)) l q)
        (λ _. (refl, refl, q))

  pub next_existing_path-Keeps :
      (l : FileLedger) → Q l.indices → Keeps l (next_existing_path stat path removing l).1
  unfolding next_existing_path
  next_existing_path-Keeps l q =
      if_elim (λ (r : Option Text × FileLedger). Keeps l r.1) (length l.indices == 0)
        (λ _. (refl, refl, q)) (λ _. scan_paths-Keeps (length l.indices) 0 l q)
