-- ===== src/Base/Float.antt =====
-- Go's float64 as a parameter: the operations that the program applies, and no law. A theorem that
-- needs one takes it as a hypothesis.
use Prim.Native.Nat.{ℕ, ◌+◌, ◌*◌, ◌/◌}
use mathlib.Core.Bool.{Bool}
use home_bench.Base.Tests.{ltb, leb}

pub record Float64 (F : Type 0) : Type 0 where
  pub of_ℕ : ℕ → F
  pub to_ℕ : F → ℕ
  pub of_int64 : ℕ → F  -- of a 64-bit pattern, as a signed number
  pub fround : F → F
  pub fadd : F → F → F
  pub fmul : F → F → F
  pub fdiv : F → F → F
  pub flt : F → F → Bool
  pub fle : F → F → Bool

-- Whole numbers, with a quotient that is cut to a whole one: not a model of floats, only a
-- concrete type for examples.
instance abbrev pub whole_floats : Float64 ℕ
whole_floats = record {
  of_ℕ = λ n. n;
  to_ℕ = λ n. n;
  of_int64 = λ n. n;
  fround = λ n. n;
  fadd = λ a b. a + b;
  fmul = λ a b. a * b;
  fdiv = λ a b. a / b;
  flt = ltb;
  fle = leb;
}
