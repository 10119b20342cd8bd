-- ===== src/Client/Ledger/Scan.antt =====
-- NextExistingPath of internal/client/worker.go where it keeps the ledger: which entries it looks at, in
-- which order.
use mathlib.Core.List.{append-nil, append_assoc}
use home_bench.Base.{
  ℕ, zero, suc, ◌+◌, ◌≤◌, ◌<◌, ◌≡◌, refl, ap, sym, ◌∙◌, inl, inr, Bool, true, false, List, [], ◌∷◌,
  ◌++◌, Option, none, some, ◌==◌, nat_eq, eq_iff, arith, if◌then◌else◌, if_elim, Bool-cases, length,
  length-append, get_elem?, take, drop, take-append-drop, take_all, ltb, leb, Text,
}
use home_bench.Client.Ledger.Kept.{next_existing_path-Keeps}
use home_bench.Client.Ledger.{
  FileLedger, pass_entry, wrap_cursor, scan_entry, scan_round, scan_paths, next_existing_path,
}

module _ {A : Type 0} where
  -- A list around one of its entries.
  entry_at :
      (d : ℕ) (xs : List A)
      → d < length xs
      → (x : A) × (get_elem? xs d ≡ some x)
        × (drop d xs ≡ x ∷ drop (suc d) xs)
        × (take (suc d) xs ≡ take d xs ++ (x ∷ []))
  entry_at d [] h = absurd (omega arith)
  entry_at zero (x ∷ xs) h = (x, refl, refl, refl)
  entry_at (suc d) (x ∷ xs) h =
      let (y, a, b, c) = entry_at d xs (omega arith) in (y, a, b, ap (λ l. x ∷ l) c)

  take_front : (n : ℕ) (xs ys : List A) → n ≤ length xs → take n (xs ++ ys) ≡ take n xs
  take_front zero xs ys h = refl
  take_front (suc n) [] ys h = absurd (omega arith)
  take_front (suc n) (x ∷ xs) ys h = ap (λ l. x ∷ l) (take_front n xs ys (omega arith))

  drop_all : (d : ℕ) (xs : List A) → length xs ≤ d → drop d xs ≡ []
  drop_all zero [] h = refl
  drop_all zero (x ∷ xs) h = absurd (omega arith)
  drop_all (suc d) [] h = refl
  drop_all (suc d) (x ∷ xs) h = drop_all d xs (omega arith)

-- The entries from the cursor on, and then those before it.
abbrev pub from_cursor : FileLedger → List ℕ
from_cursor l = drop l.del_pos l.indices ++ take l.del_pos l.indices

module _ (stat : Text → Bool) (path : ℕ → Text) where
  -- The path of the first index of a list whose path exists.
  abbrev pub first_existing : List ℕ → Option Text
  first_existing [] = none
  first_existing (i ∷ is) =
      let rest = first_existing is in if stat (path i) then some (path i) else rest

  -- A round at an entry, from what the later rounds find.
  round_first :
      (rounds scanned : ℕ) (l : FileLedger)
      → l.del_pos < length l.indices
      → rounds < length l.indices
      → ((m : FileLedger)
          → m.indices ≡ l.indices
          → (scan_paths stat path false rounds scanned m).0
            ≡ first_existing (take rounds (from_cursor m)))
      → (scan_entry stat path false
          (scan_paths stat path false rounds scanned)
          l
          (get_elem? l.indices l.del_pos)).0
        ≡ first_existing (take (suc rounds) (from_cursor l))
  unfolding scan_entry pass_entry
  round_first rounds scanned l h few later =
      let (x, a, b, c) = entry_at l.del_pos l.indices h in
      let rest : List ℕ = drop (suc l.del_pos) l.indices ++ take l.del_pos l.indices in
      let count = ap length (take-append-drop l.del_pos l.indices) in
      let enough : rounds ≤ length rest = omega (
        arith,
        few,
        count,
        ap length b,
        length-append (take l.del_pos l.indices) (drop l.del_pos l.indices),
        length-append (drop (suc l.del_pos) l.indices) (take l.del_pos l.indices),
      ) in
      let m : FileLedger = record l { del_pos = l.del_pos + 1 } in
      let next : l.del_pos + 1 ≡ suc l.del_pos = omega arith in
      let around : take rounds (from_cursor m) ≡ take rounds rest =
        rw (next, c)
          (ap (take rounds) (
              sym
                (append_assoc (drop (suc l.del_pos) l.indices) (take l.del_pos l.indices) (x ∷ [])))
            ∙ take_front rounds rest (x ∷ []) enough) in
      elim (Bool-cases (stat (path x))) [
        | inl s ↦ rw (a, b, s) refl
        | inr s ↦ rw (a, b, s) (later m refl ∙ ap first_existing around)
      ]

  cursor_in :
      (l : FileLedger) → l.del_pos < length l.indices → wrap_cursor stat path false l ≡ some l
  unfolding wrap_cursor
  cursor_in l h = ground (arith, h)

  cursor_past :
      (l : FileLedger)
      → length l.indices ≤ l.del_pos
      → wrap_cursor stat path false l ≡ some (record l { del_pos = 0 })
  unfolding wrap_cursor
  cursor_past l h = ground (arith, h)

  -- The loop finds the first of as many entries as it has rounds.
  scan_first :
      (rounds scanned : ℕ) (l : FileLedger)
      → scanned + rounds ≡ length l.indices
      → (scan_paths stat path false rounds scanned l).0
        ≡ first_existing (take rounds (from_cursor l))
  unfolding scan_paths scan_round
  scan_first zero scanned l e = refl
  scan_first (suc rounds) scanned l e =
      let busy : ltb scanned (length l.indices) ≡ true = ground (arith, e) in
      let later : (m : FileLedger) → m.indices ≡ l.indices → _ =
        λ m same. scan_first rounds (scanned + 1) m (rw same (omega (arith, e))) in
      elim (Bool-cases (leb (length l.indices) l.del_pos)) [
        | inl p ↦
            let m : FileLedger = record l { del_pos = 0 } in
            let past : length l.indices ≤ l.del_pos = ground (arith, p) in
            let around : from_cursor l ≡ from_cursor m =
              rw (drop_all l.del_pos l.indices past, take_all l.del_pos l.indices past)
                (sym (append-nil l.indices)) in
            rw (busy, scan_round, cursor_past l past)
              (round_first rounds (scanned + 1) m (omega (arith, e)) (omega (arith, e)) later
                ∙ ap (λ k. first_existing (take (suc rounds) k)) (sym around))
        | inr p ↦
            rw (busy, scan_round, cursor_in l (ground (arith, p)))
              (round_first rounds (scanned + 1) l (ground (arith, p)) (omega (arith, e)) later)
      ]

  length-from_cursor : (l : FileLedger) → length (from_cursor l) ≡ length l.indices
  length-from_cursor l = omega (
    arith,
    ap length (take-append-drop l.del_pos l.indices),
    length-append (take l.del_pos l.indices) (drop l.del_pos l.indices),
    length-append (drop l.del_pos l.indices) (take l.del_pos l.indices),
  )

  -- With removeFromLedger unset, NextExistingPath returns the path of the first index whose file
  -- exists, from the cursor on and then around from the start, and nothing exactly when no file of
  -- the ledger exists, wherever the cursor stands; the ledger keeps all of its indices.
  pub next_existing_path_lem :
      (l : FileLedger)
      → ((next_existing_path stat path false l).0 ≡ first_existing (from_cursor l))
        × ((next_existing_path stat path false l).1.indices ≡ l.indices)
  unfolding next_existing_path
  next_existing_path_lem l =
      let whole : take (length l.indices) (from_cursor l) ≡ from_cursor l =
        take_all (length l.indices) (from_cursor l) (omega (arith, length-from_cursor l)) in
      (
        if_elim (λ (r : Option Text × FileLedger). r.0 ≡ first_existing (from_cursor l))
            (length l.indices == 0)
            (λ h. rw ((eq_iff (length l.indices) 0).0 h) at (ap first_existing whole))
            (λ _. scan_first (length l.indices) 0 l (omega arith) ∙ ap first_existing whole),
        (next_existing_path-Keeps false (λ is. is ≡ l.indices) (λ r. absurd (ground (arith, r)))
            stat path l refl).2,
      )
