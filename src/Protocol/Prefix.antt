-- ===== src/Protocol/Prefix.antt =====
-- internal/protocol/prefix.go: the directory prefix of a client, by the FNV-1a hash of its hostname.
-- `int` has 64 bits, so the hash is never negative as an index.
use Prim.Native.Nat.{bit_xor}
use home_bench.Base.{
  ℕ, zero, suc, eq_self, ◌≢◌, ◌*◌, ◌%◌, ◌^◌, ◌<◌, ◌≡◌, refl, true, List, [], ◌∷◌, arith, Text,
  list_eq, nat_eq, contains, length, none, some, get_elem?,
}

-- hash/fnv New32a: for each byte, xor and then multiply by the prime, in a uint32.
fnv_write : ℕ → Text → ℕ
fnv_write h [] = h
fnv_write h (b ∷ s) = fnv_write ((bit_xor h b * 16777619) % 2 ^ 32) s

unfoldable pub fnv_sum32a : Text → ℕ
unfolding fnv_write
fnv_sum32a s = fnv_write 2166136261 s

-- An index that is in range (the caller has taken it modulo the length).
index_or : List Text → ℕ → Text
index_or xs i = elim (get_elem? xs i) [ none ↦ [] | some x ↦ x ]

-- SelectPrefix
unfoldable pub select_prefix : Text → List Text → Text
unfolding index_or
select_prefix hostname [] = []
select_prefix hostname (p ∷ ps) = index_or (p ∷ ps) (fnv_sum32a hostname % length (p ∷ ps))

fnv_write-lt : (h : ℕ) (s : Text) → h < 2 ^ 32 → fnv_write h s < 2 ^ 32
unfolding fnv_write
fnv_write-lt h [] k = k
fnv_write-lt h (b ∷ s) k = fnv_write-lt ((bit_xor h b * 16777619) % 2 ^ 32) s (omega arith)

-- The hash is a uint32.
fnv_sum32a-lt : (s : Text) → fnv_sum32a s < 2 ^ 32
unfolding fnv_sum32a
fnv_sum32a-lt s = fnv_write-lt 2166136261 s (omega arith)

contains-index_or : (xs : List Text) (i : ℕ) → i < length xs → contains (index_or xs i) xs ≡ true
unfolding index_or contains
contains-index_or [] i h = elim h [ ]
contains-index_or (x ∷ xs) zero h = ground (arith, eq_self x)
contains-index_or (x ∷ xs) (suc i) h = ground (arith, contains-index_or xs i)

-- A client's prefix is one of the configured prefixes.
pub contains-select_prefix :
    (hostname : Text) (ps : List Text) → ps ≢ [] → contains (select_prefix hostname ps) ps ≡ true
unfolding select_prefix
contains-select_prefix hostname [] h = absurd (h refl)
contains-select_prefix hostname (p ∷ ps) h =
    contains-index_or (p ∷ ps) (fnv_sum32a hostname % length (p ∷ ps)) (grind arith)
