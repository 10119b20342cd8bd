-- ===== src/Client/Ledger/Early.antt =====
-- How far NextExistingPath of internal/client/worker.go looks in the final delete.
use home_bench.Base.{
  ℕ, zero, suc, ◌+◌, ◌≤◌, ◌<◌, ◌≡◌, refl, ap, ◌∙◌, inl, inr, Bool, true, false, List, [], ◌∷◌, ◌++◌,
  Option, none, some, ◌==◌, nat_eq, arith, if◌then◌else◌, Bool-cases, length, length-append,
  get_elem?, ltb, leb, Text, All,
}
use home_bench.Client.Ledger.{
  FileLedger, remove_at, pass_entry, wrap_cursor, scan_entry, scan_round, scan_paths,
  next_existing_path,
}

module _ {A : Type 0} where
  get_elem?-append :
      (xs : List A) (y : A) (ys : List A) → get_elem? (xs ++ (y ∷ ys)) (length xs) ≡ some y
  get_elem?-append [] y ys = refl
  get_elem?-append (x ∷ xs) y ys = get_elem?-append xs y ys

  remove_at-append :
      (xs : List A) (y : A) (ys : List A) → remove_at (length xs) (xs ++ (y ∷ ys)) ≡ xs ++ ys
  unfolding remove_at
  remove_at-append [] y ys = refl
  remove_at-append (x ∷ xs) y ys = ap (λ l. x ∷ l) (remove_at-append xs y ys)

-- A ledger with those entries, the cursor after the first of the two lists.
abbrev pub standing : FileLedger → List ℕ → List ℕ → FileLedger
standing l front is = record l { indices = front ++ is; del_pos = length front }

module _ (stat : Text → Bool) (path : ℕ → Text) where
  cursor_within :
      (l : FileLedger) → l.del_pos < length l.indices → wrap_cursor stat path true l ≡ some l
  unfolding wrap_cursor
  cursor_within l h = ground (arith, h)

  module _ (l : FileLedger) (front : List ℕ) where
    at_entry :
        (rounds scanned y : ℕ) (ys : List ℕ)
        → scanned < length (front ++ (y ∷ ys))
        → scan_paths stat path true (suc rounds) scanned (standing l front (y ∷ ys))
          ≡ scan_entry stat path true
              (scan_paths stat path true rounds (scanned + 1))
              (standing l front (y ∷ ys))
              (some y)
    unfolding scan_paths scan_round
    at_entry rounds scanned y ys h =
        let busy : ltb scanned (length (front ++ (y ∷ ys))) ≡ true = ground (arith, h) in
        let within : length front < length (front ++ (y ∷ ys)) =
          omega (arith, length-append front (y ∷ ys)) in
        rw
          (
            busy,
            scan_round,
            cursor_within (standing l front (y ∷ ys)) within,
            get_elem?-append front y ys,
          )
          refl

    skip_missing :
        (rounds scanned y : ℕ) (ys : List ℕ)
        → scanned < length (front ++ (y ∷ ys))
        → stat (path y) ≡ false
        → scan_paths stat path true (suc rounds) scanned (standing l front (y ∷ ys))
          ≡ scan_paths stat path true rounds (scanned + 1) (standing l front ys)
    unfolding scan_entry pass_entry
    skip_missing rounds scanned y ys h gone =
        at_entry rounds scanned y ys h ∙ rw (gone, remove_at-append front y ys) refl

    take_existing :
        (rounds scanned y : ℕ) (ys : List ℕ)
        → scanned < length (front ++ (y ∷ ys))
        → stat (path y) ≡ true
        → (scan_paths stat path true (suc rounds) scanned (standing l front (y ∷ ys))).0
          ≡ some (path y)
    unfolding scan_entry pass_entry
    take_existing rounds scanned y ys h there =
        ap (λ (r : Option Text × FileLedger). r.0) (at_entry rounds scanned y ys h) ∙ rw there refl

    lengths :
        (y : ℕ) (missing : List ℕ) (x : ℕ) (rest : List ℕ)
        → length (front ++ (y ∷ (missing ++ (x ∷ rest))))
          ≡ length (front ++ (x ∷ rest)) + 1 + length missing
    lengths y missing x rest = omega (
      arith,
      length-append front (y ∷ (missing ++ (x ∷ rest))),
      length-append missing (x ∷ rest),
      length-append front (x ∷ rest),
    )

    -- The missing entries before the first one that exists, and how far the loop gets.
    past_missing :
        (missing : List ℕ) (rounds scanned x : ℕ) (rest : List ℕ)
        → All (λ i. stat (path i) ≡ false) missing
        → stat (path x) ≡ true
        → length missing < rounds
        → scanned + length missing < length (front ++ (x ∷ rest))
        → (scan_paths stat path true rounds scanned (standing l front (missing ++ (x ∷ rest)))).0
          ≡ some (path x)
    past_missing missing zero scanned x rest gone there r h = absurd (omega (arith, r))
    past_missing [] (suc rounds) scanned x rest gone there r h =
        take_existing rounds scanned x rest (omega (arith, h)) there
    past_missing (y ∷ missing) (suc rounds) scanned x rest gone there r h =
        ap (λ (r : Option Text × FileLedger). r.0)
          (skip_missing rounds scanned y (missing ++ (x ∷ rest))
            (omega (arith, h, lengths y missing x rest)) gone.0)
        ∙ past_missing missing rounds (scanned + 1) x rest gone.1 there (omega (arith, r))
            (omega (arith, h))

    no_rounds : (scanned : ℕ) (m : FileLedger) → scan_paths stat path true 0 scanned m ≡ (none, m)
    unfolding scan_paths
    no_rounds scanned m = refl

    scanned_all :
        (rounds scanned : ℕ) (m : FileLedger)
        → length m.indices ≤ scanned
        → scan_paths stat path true (suc rounds) scanned m ≡ (none, m)
    unfolding scan_paths
    scanned_all rounds scanned m h =
        let idle : ltb scanned (length m.indices) ≡ false = ground (arith, h) in rw idle refl

    short_of :
        (missing : List ℕ) (rounds scanned x : ℕ) (rest : List ℕ)
        → All (λ i. stat (path i) ≡ false) missing
        → length (front ++ (x ∷ rest)) ≤ scanned + length missing
        → (scan_paths stat path true rounds scanned (standing l front (missing ++ (x ∷ rest)))).0
          ≡ none
    short_of missing zero scanned x rest gone h =
        ap (λ (r : Option Text × FileLedger). r.0) (no_rounds scanned _)
    short_of [] (suc rounds) scanned x rest gone h =
        ap (λ (r : Option Text × FileLedger). r.0) (scanned_all rounds scanned _ (omega (arith, h)))
    short_of (y ∷ missing) (suc rounds) scanned x rest gone h =
        elim (Bool-cases (ltb scanned (length (front ++ (y ∷ (missing ++ (x ∷ rest))))))) [
          | inl b ↦
              ap (λ (r : Option Text × FileLedger). r.0)
                (skip_missing rounds scanned y (missing ++ (x ∷ rest)) (ground (arith, b)) gone.0)
              ∙ short_of missing rounds (scanned + 1) x rest gone.1 (omega (arith, h))
          | inr n ↦
              ap (λ (r : Option Text × FileLedger). r.0)
                (scanned_all rounds scanned _ (ground (arith, n)))
        ]

    -- The final delete gives up early. With removeFromLedger set, the cursor after `front`, and
    -- then missing files before one that exists: NextExistingPath returns that one if the missing
    -- are no more than all the entries besides it and them, and reports that no file is left
    -- otherwise, since each missing entry both raises the count and shortens the list.
    removal_stops_early :
        (missing : List ℕ) (x : ℕ) (rest : List ℕ)
        → All (λ i. stat (path i) ≡ false) missing
        → stat (path x) ≡ true
        → (next_existing_path stat path true (standing l front (missing ++ (x ∷ rest)))).0
          ≡ (if leb (length missing) (length front + length rest) then some (path x) else none)
    unfolding next_existing_path
    removal_stops_early missing x rest gone there =
        let size : length (front ++ (missing ++ (x ∷ rest)))
            ≡ length front + length missing + 1 + length rest =
          omega (
            arith,
            length-append front (missing ++ (x ∷ rest)),
            length-append missing (x ∷ rest),
          ) in
        let some_left : (length (front ++ (missing ++ (x ∷ rest))) == 0) ≡ false =
          ground (arith, size) in
        rw some_left (elim (Bool-cases (leb (length missing) (length front + length rest))) [
          | inl b ↦ rw b (
              past_missing missing (length (front ++ (missing ++ (x ∷ rest)))) 0 x rest gone there
                (omega (arith, size)) (ground (arith, b, length-append front (x ∷ rest))))
          | inr n ↦ rw n (
              short_of missing (length (front ++ (missing ++ (x ∷ rest)))) 0 x rest gone
                (ground (arith, n, length-append front (x ∷ rest))))
        ])
