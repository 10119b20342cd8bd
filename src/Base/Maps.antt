-- ===== src/Base/Maps.antt =====
-- Go's maps as association lists with distinct keys. The order of the list stands for the order in
-- which a `range` over the map happens to visit it.
use mathlib.Core.Path.{◌≡◌, refl, sym, ap, ◌∙◌}
use mathlib.Core.Logic.{inl, inr}
use mathlib.Core.Bool.{Bool, false, not, ◌||◌}
use mathlib.Core.List.{List, [], ◌∷◌, map}
use mathlib.Core.Option.{Option, none, some}
use native.Mathlib.Omega.{arith}
use home_bench.Base.Tests.{if◌then◌else◌, is_some, Bool-cases}
use home_bench.Base.Lists.{select}
use home_bench.Base.Equality.{DecEq, ◌==◌, eq_iff}
use home_bench.Base.Sets.{contains, Distinct}

abbrev pub keep_if {ℓ} : {V : Type ℓ} → (V → Bool) → Option V → Option V
keep_if p none = none
keep_if p (some v) = if p v then some v else none

pub keep_if_ext {ℓ} :
    {V : Type ℓ} (p q : V → Bool) (o : Option V) → ((v : V) → p v ≡ q v) → keep_if p o ≡ keep_if q o
keep_if_ext p q none h = refl
keep_if_ext p q (some v) h = rw (h v)

module _ {ℓ κ} {K : Type ℓ} {V : Type κ} ⦃d : DecEq K⦄ where
  unfoldable pub lookup : K → List (K × V) → Option V
  lookup key [] = none
  lookup key (entry ∷ rest) = if entry.0 == key then some entry.1 else lookup key rest

  -- `m[key] = value`
  unfoldable pub insert : K → V → List (K × V) → List (K × V)
  insert key value [] = (key, value) ∷ []
  insert key value (entry ∷ rest) =
      if entry.0 == key then (key, value) ∷ rest else entry ∷ insert key value rest

  -- `delete(m, k)`
  unfoldable pub delete : K → List (K × V) → List (K × V)
  delete k m = select (λ p. not (p.0 == k)) m

  abbrev pub keys : List (K × V) → List K
  keys = map λ p. p.0

  pub lookup-insert :
      (key other : K) (value : V) (m : List (K × V))
      → lookup other (insert key value m) ≡ (if key == other then some value else lookup other m)
  unfolding insert lookup
  lookup-insert key other value [] = refl
  lookup-insert key other value (entry ∷ rest) = ground (
    arith,
    lookup-insert key other value rest,
    eq_iff entry.0 key,
    eq_iff entry.0 other,
    eq_iff key other,
  )

  pub lookup-delete :
      (k j : K) (m : List (K × V)) → lookup j (delete k m) ≡ (if j == k then none else lookup j m)
  unfolding lookup delete
  lookup-delete k j [] = ground arith
  lookup-delete k j ((i, w) ∷ m) =
      ground (arith, eq_iff j k, eq_iff i k, eq_iff i j, lookup-delete k j m)

  contains-keys : (k : K) (m : List (K × V)) → contains k (keys m) ≡ is_some (lookup k m)
  unfolding contains lookup
  contains-keys k [] = refl
  contains-keys k ((j, v) ∷ m) = ground (arith, contains-keys k m)

  contains-keys-insert :
      (k j : K) (v : V) (m : List (K × V))
      → contains j (keys (insert k v m)) ≡ (k == j || contains j (keys m))
  contains-keys-insert k j v m =
      ground (arith, contains-keys j (insert k v m), contains-keys j m, lookup-insert k j v m)

  pub insert-Distinct :
      (k : K) (v : V) (m : List (K × V)) → Distinct (keys m) → Distinct (keys (insert k v m))
  unfolding insert contains
  insert-Distinct k v [] d = (refl, tt)
  insert-Distinct k v ((j, w) ∷ m) d =
      ground
        (arith, eq_iff j k, eq_iff k j, contains-keys-insert k j v m, insert-Distinct k v m d.1)

  contains-keys-select :
      (p : K × V → Bool) (j : K) (m : List (K × V))
      → contains j (keys m) ≡ false
      → contains j (keys (select p m)) ≡ false
  unfolding contains
  contains-keys-select p j [] h = refl
  contains-keys-select p j ((i, w) ∷ m) h = ground (arith, contains-keys-select p j m)

  pub keys-select-Distinct :
      (p : K × V → Bool) (m : List (K × V)) → Distinct (keys m) → Distinct (keys (select p m))
  keys-select-Distinct p [] d = tt
  keys-select-Distinct p ((i, w) ∷ m) d =
      ground (arith, contains-keys-select p i m, keys-select-Distinct p m d.1)

  delete-Distinct : (k : K) (m : List (K × V)) → Distinct (keys m) → Distinct (keys (delete k m))
  unfolding delete
  delete-Distinct k m d = keys-select-Distinct (λ p. not (p.0 == k)) m d

  -- Selecting entries of a map with distinct keys.
  pub lookup-select :
      (p : K × V → Bool) (k : K) (m : List (K × V))
      → Distinct (keys m)
      → lookup k (select p m) ≡ keep_if (λ v. p (k, v)) (lookup k m)
  unfolding lookup
  lookup-select p k [] d = refl
  lookup-select p k ((j, v) ∷ m) d = elim (Bool-cases (j == k)) [
    | inl h ↦ rw ((eq_iff j k).0 h) (
        ground (
          arith,
          eq_iff k k,
          contains-keys k (select p m),
          contains-keys-select p k m (rw (sym ((eq_iff j k).0 h)) d.0),
        ))
    | inr h ↦ ground (arith, lookup-select p k m d.1)
  ]

  pub contains-keys-select_if :
      (p : K × V → Bool) (k : K) (m : List (K × V))
      → Distinct (keys m)
      → contains k (keys (select p m)) ≡ is_some (keep_if (λ v. p (k, v)) (lookup k m))
  contains-keys-select_if p k m d =
      contains-keys k (select p m) ∙ ap is_some (lookup-select p k m d)
