-- ===== src/Base/Texts/Decimal.antt =====
-- What fmt's %d prints, and how it is read.
use Prim.Native.Nat.{ℕ, zero, suc, ◌+◌, ◌-◌, ◌*◌, ◌/◌, ◌%◌, ◌<◌}
use mathlib.Core.Path.{◌≡◌, refl, ◌∙◌}
use mathlib.Core.Logic.{inl, inr}
use mathlib.Core.Bool.{false}
use mathlib.Core.List.{[], ◌∷◌, ◌++◌}
use native.Mathlib.Omega.{arith}
use home_bench.Base.Tests.{if◌then◌else◌, ltb, Bool-cases}
use home_bench.Base.Lists.{replicate}
use home_bench.Base.Equality.{◌==◌, nat_eq}
use home_bench.Base.Texts.{Text, decimal, decimal_by}

-- The value of the digits behind the last slash.
unfoldable pub value_after : ℕ → Text → ℕ
value_after acc [] = acc
value_after acc (c ∷ s) = value_after (if c == b'/' then 0 else acc * 10 + (c - b'0')) s

pub value_after-slash :
    (acc : ℕ) (front s : Text) → value_after acc (front ++ (b'/' ∷ s)) ≡ value_after 0 s
unfolding value_after
value_after-slash acc [] s = refl
value_after-slash acc (c ∷ front) s =
    value_after-slash (if c == b'/' then 0 else acc * 10 + (c - b'0')) front s

value_after-digit :
    (acc d : ℕ) (s : Text) → value_after acc ((b'0' + d) ∷ s) ≡ value_after (acc * 10 + d) s
unfolding value_after
value_after-digit acc d s =
    let plain : (b'0' + d == b'/') ≡ false = ground arith in
    let digit : b'0' + d - b'0' ≡ d = omega arith in rw (plain, digit) refl

value_after-decimal_by :
    (rounds n : ℕ) (s : Text) → n < rounds → value_after 0 (decimal_by rounds n s) ≡ value_after n s
unfolding decimal_by
value_after-decimal_by zero n s h = elim h [ ]
value_after-decimal_by (suc rounds) n s h = elim (Bool-cases (ltb n 10)) [
  | inl one ↦ rw one (value_after-digit 0 n s ∙ rw (zero_times n) refl)
  | inr more ↦
      let back : n / 10 * 10 + n % 10 ≡ n = omega arith in
      rw more (
        value_after-decimal_by rounds (n / 10) ((b'0' + n % 10) ∷ s) (ground (arith, more, h))
        ∙ value_after-digit (n / 10) (n % 10) s
        ∙ rw back refl)
]
  where
    zero_times : (k : ℕ) → 0 * 10 + k ≡ k
    zero_times k = omega arith

pub value_after-decimal : (n : ℕ) → value_after 0 (decimal n) ≡ n
unfolding decimal value_after
value_after-decimal n = value_after-decimal_by (suc n) n [] (omega arith)

pub value_after-zeros : (k : ℕ) (s : Text) → value_after 0 (replicate k b'0' ++ s) ≡ value_after 0 s
value_after-zeros zero s = refl
value_after-zeros (suc k) s = first ∙ value_after-zeros k s
  where
    first : value_after 0 (b'0' ∷ (replicate k b'0' ++ s)) ≡ value_after 0 (replicate k b'0' ++ s)
    first = value_after-digit 0 0 (replicate k b'0' ++ s)
