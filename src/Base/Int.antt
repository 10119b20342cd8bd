-- ===== src/Base/Int.antt =====
-- Signed integers over the native numbers, for arguments that the source tests for their sign, and
-- the order of int64.
use Prim.Native.Nat.{ℕ, ◌+◌, ◌%◌, ◌^◌, ◌<◌}
use mathlib.Core.Path.{◌≡◌}
use mathlib.Core.Bool.{Bool}
use native.Mathlib.Omega.{arith}
use home_bench.Base.Tests.{ltb}

-- `negsuc n` is -(n + 1).
pub data ℤ : Type 0 where
  pos : ℕ → ℤ
  negsuc : ℕ → ℤ

-- The number, or 0 in place of a negative one.
abbrev pub pos_part : ℤ → ℕ
pos_part (pos n) = n
pos_part (negsuc n) = 0

-- `a < b` of two int64 that are given as their 64-bit patterns.
abbrev pub signed_lt : ℕ → ℕ → Bool
signed_lt a b = ltb ((a + 2 ^ 63) % 2 ^ 64) ((b + 2 ^ 63) % 2 ^ 64)

pub signed_lt_small : (a b : ℕ) → a < 2 ^ 63 → b < 2 ^ 63 → signed_lt a b ≡ ltb a b
signed_lt_small a b h k = ground arith
