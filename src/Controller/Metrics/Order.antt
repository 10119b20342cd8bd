-- ===== src/Controller/Metrics/Order.antt =====
-- Lists in the order of their seconds, for internal/controller/metrics.go: the sort of the due
-- buckets, and entries of a map that a test selects.
use home_bench.Base.{
  All-map, All-append, ℕ, ◌≤◌, ◌<◌, ◌≡◌, ◌≢◌, inl, inr, false, List, [], ◌∷◌, ◌++◌, arith, ◌==◌,
  nat_eq, Bool-cases, All, insert, keys, contains, Distinct, ltb, eq_iff,
}
use home_bench.Controller.Metrics.{insert_due, sort_due}

-- Strictly ascending seconds.
abbrev pub Ascending : List ℕ → Type 0
Ascending [] = Unit
Ascending (t ∷ ts) = All (λ u. t < u) ts × Ascending ts

-- All of the seconds are before the given one.
abbrev pub Below : List ℕ → ℕ → Type 0
Below ts k = All (λ t. t < k) ts

pub Below-trans : (ts : List ℕ) (k j : ℕ) → k ≤ j → Below ts k → Below ts j
Below-trans ts k j h = All-map (λ t p. omega arith) ts

pub Ascending-append :
    (xs ys : List ℕ)
    → Ascending xs
    → Ascending ys
    → All (λ x. All (λ y. x < y) ys) xs
    → Ascending (xs ++ ys)
Ascending-append [] ys a b h = b
Ascending-append (x ∷ xs) ys a b h =
    (All-append (λ u. x < u) xs ys a.0 h.0, Ascending-append xs ys a.1 b h.1)

-- From "each entry of one list is after all of the other" to the reverse reading.
pub All-swap : (xs ys : List ℕ) → All (λ y. Below xs y) ys → All (λ x. All (λ y. x < y) ys) xs
All-swap [] ys h = tt
All-swap (x ∷ xs) ys h = (All-map (λ y p. p.0) ys h, All-swap xs ys (All-map (λ y p. p.1) ys h))

module _ {ℓ κ} {A : Type ℓ} (P : ℕ × A → Type κ) where
  All-insert_due : (a : ℕ × A) (bs : List (ℕ × A)) → P a → All P bs → All P (insert_due a bs)
  unfolding insert_due
  All-insert_due a [] p q = (p, tt)
  All-insert_due a (b ∷ bs) p q = elim (Bool-cases (ltb b.0 a.0)) [
    | inl h ↦ rw h (q.0, All-insert_due a bs p q.1)
    | inr h ↦ rw h (p, q)
  ]

  pub All-sort_due : (bs : List (ℕ × A)) → All P bs → All P (sort_due bs)
  unfolding sort_due
  All-sort_due [] p = tt
  All-sort_due (a ∷ bs) p = All-insert_due a (sort_due bs) p.0 (All-sort_due bs p.1)

  pub All-insert : (k : ℕ) (v : A) (m : List (ℕ × A)) → P (k, v) → All P m → All P (insert k v m)
  unfolding insert
  All-insert k v [] p q = (p, tt)
  All-insert k v (e ∷ m) p q = elim (Bool-cases (e.0 == k)) [
    | inl h ↦ rw h (p, q.1)
    | inr h ↦ rw h (q.0, All-insert k v m p q.1)
  ]

module _ {ℓ} {A : Type ℓ} where
  pub All-keys : (Q : ℕ → Type 0) (m : List (ℕ × A)) → All (λ e. Q e.0) m → All Q (keys m)
  All-keys Q [] h = tt
  All-keys Q (e ∷ m) h = (h.0, All-keys Q m h.1)

  All-keys_back : (Q : ℕ → Type 0) (m : List (ℕ × A)) → All Q (keys m) → All (λ e. Q e.0) m
  All-keys_back Q [] h = tt
  All-keys_back Q (e ∷ m) h = (h.0, All-keys_back Q m h.1)

  differ : (k : ℕ) (m : List (ℕ × A)) → contains k (keys m) ≡ false → All (λ e. e.0 ≢ k) m
  unfolding contains
  differ k [] h = tt
  differ k (e ∷ m) h = (ground (arith, eq_iff e.0 k), differ k m (ground arith))

  insert_due-Ascending :
      (a : ℕ × A) (bs : List (ℕ × A))
      → All (λ e. e.0 ≢ a.0) bs
      → Ascending (keys bs)
      → Ascending (keys (insert_due a bs))
  unfolding insert_due
  insert_due-Ascending a [] d s = (tt, tt)
  insert_due-Ascending a (b ∷ bs) d s = elim (Bool-cases (ltb b.0 a.0)) [
    | inl h ↦ rw h (
      All-keys (λ k. b.0 < k) (insert_due a bs)
          (All-insert_due (λ e. b.0 < e.0) a bs (ground (arith, h))
            (All-keys_back (λ k. b.0 < k) bs s.0)),
      insert_due-Ascending a bs d.1 s.1,
    )
    | inr h ↦
        rw h ((ground (arith, h, d.0), All-map (λ k p. ground (arith, h, p)) (keys bs) s.0), s)
  ]

  -- The sorted entries of a map are strictly ascending.
  pub sort_due-Ascending : (m : List (ℕ × A)) → Distinct (keys m) → Ascending (keys (sort_due m))
  unfolding sort_due
  sort_due-Ascending [] d = tt
  sort_due-Ascending (a ∷ m) d =
      insert_due-Ascending a (sort_due m) (All-sort_due (λ e. e.0 ≢ a.0) m (differ a.0 m d.0))
        (sort_due-Ascending m d.1)
