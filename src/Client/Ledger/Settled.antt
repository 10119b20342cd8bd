-- ===== src/Client/Ledger/Settled.antt =====
-- Lists of indices for internal/client/worker.go: each below the next one, once, and not taken.
use home_bench.Base.{
  ℕ, zero, suc, ◌+◌, ◌<◌, ◌≡◌, refl, inl, inr, true, false, List, [], ◌∷◌, ◌++◌, nat_eq, eq_iff,
  eq_self, arith, Bool-cases, All, All-map, All-append, All-contains, All-both, contains, remove,
  Distinct, Distinct-append_one, contains-remove,
}
use home_bench.Client.Ledger.{remove_at}

-- A list of indices that are below the next one, each once, and none of them taken.
abbrev pub Settled : ℕ → List ℕ → List ℕ → Type 0
Settled next taken is =
    All (λ i. i < next) is × Distinct is × All (λ i. contains i taken ≡ false) is

pub absent_above : (k : ℕ) (is : List ℕ) → All (λ i. i < k) is → contains k is ≡ false
unfolding contains
absent_above k [] h = refl
absent_above k (i ∷ is) h = ground (arith, absent_above k is h.1, h.0, eq_iff i k)

-- An index that is taken is not settled.
taken_unsettled :
    (i : ℕ) (taken is : List ℕ)
    → All (λ j. contains j taken ≡ false) is
    → contains i taken ≡ true
    → contains i is ≡ false
taken_unsettled i taken is h c = elim (Bool-cases (contains i is)) [
  | inl d ↦ ground (arith, All-contains (λ j. contains j taken ≡ false) i is h d, c)
  | inr d ↦ d
]

remove_absent :
    (i j : ℕ) (taken : List ℕ) → contains j taken ≡ false → contains j (remove i taken) ≡ false
remove_absent i j taken h = ground (arith, contains-remove i j taken, h)

-- The next index is taken.
pub Settled-take :
    (next : ℕ) (taken is : List ℕ) → Settled next taken is → Settled (next + 1) (next ∷ taken) is
unfolding contains
Settled-take next taken is (b, d, a) = (
  All-map (λ i p. omega arith) is b,
  d,
  All-map (λ i p. ground (arith, p.0, p.1, eq_iff next i)) is (All-both _ _ is b a),
)

-- An index is taken no more.
pub Settled-remove :
    (next i : ℕ) (taken is : List ℕ) → Settled next taken is → Settled next (remove i taken) is
Settled-remove next i taken is (b, d, a) = (b, d, All-map (λ j p. remove_absent i j taken p) is a)

-- A taken index is added.
pub Settled-add :
    (next i : ℕ) (taken is : List ℕ)
    → i < next
    → contains i taken ≡ true
    → Settled next taken is
    → Settled next (remove i taken) (is ++ (i ∷ []))
Settled-add next i taken is h c (b, d, a) = (
  All-append _ is (i ∷ []) b (h, tt),
  Distinct-append_one i is (taken_unsettled i taken is a c) d,
  All-append _ is (i ∷ []) (All-map (λ j p. remove_absent i j taken p) is a)
      (ground (arith, contains-remove i i taken, eq_self i), tt),
)

-- An entry goes.
module _ {κ} (P : ℕ → Type κ) where
  All-remove_at : (pos : ℕ) (is : List ℕ) → All P is → All P (remove_at pos is)
  unfolding remove_at
  All-remove_at pos [] h = tt
  All-remove_at zero (i ∷ is) h = h.1
  All-remove_at (suc pos) (i ∷ is) h = (h.0, All-remove_at pos is h.1)

contains-remove_at :
    (i pos : ℕ) (is : List ℕ) → contains i is ≡ false → contains i (remove_at pos is) ≡ false
unfolding remove_at contains
contains-remove_at i pos [] h = refl
contains-remove_at i zero (j ∷ is) h = ground (arith, h)
contains-remove_at i (suc pos) (j ∷ is) h = ground (arith, h, contains-remove_at i pos is)

remove_at-Distinct : (pos : ℕ) (is : List ℕ) → Distinct is → Distinct (remove_at pos is)
unfolding remove_at
remove_at-Distinct pos [] d = tt
remove_at-Distinct zero (i ∷ is) d = d.1
remove_at-Distinct (suc pos) (i ∷ is) d =
    (contains-remove_at i pos is d.0, remove_at-Distinct pos is d.1)

pub Settled-remove_at :
    (next : ℕ) (taken : List ℕ) (pos : ℕ) (is : List ℕ)
    → Settled next taken is
    → Settled next taken (remove_at pos is)
Settled-remove_at next taken pos is (b, d, a) =
    (All-remove_at _ pos is b, remove_at-Distinct pos is d, All-remove_at _ pos is a)
