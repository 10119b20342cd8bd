-- ===== src/Base/Sets.antt =====
-- Go's `map[K]struct{}` as a list without repetition. The order of the list stands for the order in
-- which a `range` over the map happens to visit it.
use mathlib.Core.Path.{◌≡◌, refl}
use mathlib.Core.Logic.{inl, inr}
use mathlib.Core.Bool.{Bool, true, false, not, ◌&&◌, ◌||◌}
use mathlib.Core.List.{List, [], ◌∷◌, ◌++◌}
use native.Mathlib.Omega.{arith}
use home_bench.Base.Tests.{if◌then◌else◌, Bool-cases}
use home_bench.Base.Lists.{select, All}
use home_bench.Base.Equality.{DecEq, ◌==◌, eq_iff}

module _ {ℓ} {A : Type ℓ} ⦃d : DecEq A⦄ where
  unfoldable pub contains : A → List A → Bool
  contains a [] = false
  contains a (x ∷ xs) = x == a || contains a xs

  -- `m[a] = struct{}{}`
  unfoldable pub add : A → List A → List A
  add a xs = if contains a xs then xs else xs ++ (a ∷ [])

  -- `delete(m, a)`
  unfoldable pub remove : A → List A → List A
  remove a xs = select (λ x. not (x == a)) xs

  -- No entry is repeated.
  abbrev pub Distinct : List A → Type 0
  Distinct [] = Unit
  Distinct (x ∷ xs) = (contains x xs ≡ false) × Distinct xs

  -- What holds of all the entries holds of one that is there.
  pub All-contains {κ} :
      (P : A → Type κ) (a : A) (xs : List A) → All P xs → contains a xs ≡ true → P a
  unfolding contains
  All-contains P a [] h c = ground (arith, c)
  All-contains P a (x ∷ xs) h c = elim (Bool-cases (x == a)) [
    | inl e ↦ rw (← (eq_iff x a).0 e) h.0
    | inr n ↦ All-contains P a xs h.1 (ground (arith, c, n))
  ]

  pub contains-append :
      (a : A) (xs ys : List A) → contains a (xs ++ ys) ≡ (contains a xs || contains a ys)
  unfolding contains
  contains-append a [] ys = refl
  contains-append a (x ∷ xs) ys = ground (arith, contains-append a xs ys)

  pub contains-select :
      (p : A → Bool) (a : A) (xs : List A) → contains a (select p xs) ≡ (p a && contains a xs)
  unfolding contains
  contains-select p a [] = ground arith
  contains-select p a (x ∷ xs) = elim (Bool-cases (x == a)) [
    | inl h ↦ ground (arith, contains-select p a xs, (eq_iff x a).0 h, h)
    | inr h ↦ ground (arith, contains-select p a xs, h)
  ]

  pub contains-add : (a b : A) (xs : List A) → contains b (add a xs) ≡ (a == b || contains b xs)
  unfolding add contains
  contains-add a b xs = elim (Bool-cases (contains a xs)) [
    | inl h ↦ rw h (ground (arith, eq_iff a b, h))
    | inr h ↦ rw (h, contains-append b xs (a ∷ [])) (ground arith)
  ]

  pub contains-remove :
      (a b : A) (xs : List A) → contains b (remove a xs) ≡ (not (b == a) && contains b xs)
  unfolding remove
  contains-remove a b xs = contains-select (λ x. not (x == a)) b xs

  pub Distinct-append_one :
      (a : A) (xs : List A) → contains a xs ≡ false → Distinct xs → Distinct (xs ++ (a ∷ []))
  unfolding contains
  Distinct-append_one a [] h d = (refl, tt)
  Distinct-append_one a (x ∷ xs) h d = (
    ground (arith, contains-append x xs (a ∷ []), eq_iff x a, eq_iff a x),
    Distinct-append_one a xs (ground arith) d.1,
  )

  pub add-Distinct : (a : A) (xs : List A) → Distinct xs → Distinct (add a xs)
  unfolding add
  add-Distinct a xs d = elim (Bool-cases (contains a xs)) [
    | inl h ↦ rw h d
    | inr h ↦ rw h (Distinct-append_one a xs h d)
  ]

  pub select-Distinct : (p : A → Bool) (xs : List A) → Distinct xs → Distinct (select p xs)
  select-Distinct p [] d = tt
  select-Distinct p (x ∷ xs) d = ground (arith, contains-select p x xs, select-Distinct p xs d.1)

  pub remove-Distinct : (a : A) (xs : List A) → Distinct xs → Distinct (remove a xs)
  unfolding remove
  remove-Distinct a xs d = select-Distinct (λ x. not (x == a)) xs d

  -- The set of the entries of a slice: the loop `for _, a := range xs { m[a] = struct{}{} }`.
  unfoldable pub add_all : List A → List A → List A
  add_all [] set = set
  add_all (x ∷ xs) set = add_all xs (add x set)

  pub contains-add_all :
      (a : A) (xs set : List A) → contains a (add_all xs set) ≡ (contains a xs || contains a set)
  unfolding add_all contains
  contains-add_all a [] set = refl
  contains-add_all a (x ∷ xs) set =
      ground (arith, contains-add_all a xs (add x set), contains-add x a set)

  pub add_all-Distinct : (xs set : List A) → Distinct set → Distinct (add_all xs set)
  unfolding add_all
  add_all-Distinct [] set d = d
  add_all-Distinct (x ∷ xs) set d = add_all-Distinct xs (add x set) (add-Distinct x set d)
