-- ===== src/Base/Equality.antt =====
-- Equality as an interface: a Boolean test and the proof that it decides `≡`.
use Prim.Native.Nat.{ℕ}
use mathlib.Core.Path.{◌≡◌, refl}
use mathlib.Core.Logic.{◌↔◌}
use mathlib.Core.Bool.{Bool, true, false, ◌&&◌}
use mathlib.Core.List.{List, [], ◌∷◌}
use native.Mathlib.Omega.{arith}
use home_bench.Base.Tests.{nat_beq, nat_beq_iff}

pub record DecEq {ℓ} (X : Type ℓ) : Type ℓ where
  pub eqb : X → X → Bool
  pub sound : (x y : X) → eqb x y ≡ true → x ≡ y
  pub complete : (x y : X) → x ≡ y → eqb x y ≡ true

infix 50 ◌==◌
abbrev pub ◌==◌ {ℓ} : {A : Type ℓ} ⦃d : DecEq A⦄ → A → A → Bool
◌==◌ ⦃d⦄ = d.eqb

instance abbrev pub nat_eq : DecEq ℕ
nat_eq = record {
  eqb = nat_beq;
  sound = λ x y. (nat_beq_iff x y).0;
  complete = λ x y. (nat_beq_iff x y).1;
}

module _ {ℓ} {A : Type ℓ} ⦃d : DecEq A⦄ where
  pub eq_iff : (a b : A) → ((a == b) ≡ true) ↔ (a ≡ b)
  eq_iff a b = (d.sound a b, d.complete a b)

  pub eq_self : (a : A) → (a == a) ≡ true
  eq_self a = d.complete a a refl

  -- Lists are compared entry by entry.
  unfoldable pub list_beq : List A → List A → Bool
  list_beq [] [] = true
  list_beq [] (y ∷ ys) = false
  list_beq (x ∷ xs) [] = false
  list_beq (x ∷ xs) (y ∷ ys) = x == y && list_beq xs ys

  pub list_beq_iff : (xs ys : List A) → (list_beq xs ys ≡ true) ↔ (xs ≡ ys)
  unfolding list_beq
  list_beq_iff [] [] = ground arith
  list_beq_iff [] (y ∷ ys) = ground arith
  list_beq_iff (x ∷ xs) [] = ground arith
  list_beq_iff (x ∷ xs) (y ∷ ys) = ground (arith, eq_iff x y, list_beq_iff xs ys)

  instance abbrev pub list_eq : DecEq (List A)
  list_eq = record {
    eqb = list_beq;
    sound = λ x y. (list_beq_iff x y).0;
    complete = λ x y. (list_beq_iff x y).1;
  }
