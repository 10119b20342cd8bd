-- ===== src/Base/Texts.antt =====
-- A Go string is its bytes. What the program uses of package strings: TrimSpace, ToLower and the
-- order of strings. TrimSpace knows every white space of Unicode in its UTF-8 form; ToLower is
-- exact where its result is an ASCII letter, and keeps the other letters: it is applied here only to
-- texts that are then compared with ASCII words.
pub mod Decimal
use Prim.Native.Nat.{ℕ, zero, suc, ◌+◌, ◌/◌, ◌%◌}
use Prim.Native.Char.{code}
use Prim.Native.String.{String}
use mathlib.Core.Bool.{Bool, true, false, ◌&&◌, ◌||◌}
use mathlib.Core.List.{List, [], ◌∷◌, reverse}
use home_bench.Base.Tests.{if◌then◌else◌, leb, ltb}
use home_bench.Base.Lists.{length, drop}
use home_bench.Base.Equality.{◌==◌, nat_eq}

abbrev pub Text : Type 0
Text = List ℕ

-- The bytes of an ASCII literal.
abbrev pub codes : String → Text
codes String.[] = []
codes (String.◌∷◌ c s) = code c ∷ codes s

is_ascii_space : ℕ → Bool
is_ascii_space c = c == 32 || (leb 9 c && leb c 13)

-- U+0085 and U+00A0.
is_space_2 : ℕ → ℕ → Bool
is_space_2 a b = a == 0xc2 && (b == 0x85 || b == 0xa0)

-- U+1680, U+2000 to U+200A, U+2028, U+2029, U+202F, U+205F and U+3000.
is_space_3 : ℕ → ℕ → ℕ → Bool
is_space_3 a b c =
    (a == 0xe1 && b == 0x9a && c == 0x80)
    || (a == 0xe2 && b == 0x80 && leb 0x80 c && leb c 0x8a)
    || (a == 0xe2 && b == 0x80 && (c == 0xa8 || c == 0xa9 || c == 0xaf))
    || (a == 0xe2 && b == 0x81 && c == 0x9f)
    || (a == 0xe3 && b == 0x80 && c == 0x80)

-- How many bytes the white space at the head takes, 0 if there is none.
space_width : Text → ℕ
unfolding is_ascii_space is_space_2 is_space_3
space_width [] = 0
space_width (a ∷ []) = if is_ascii_space a then 1 else 0
space_width (a ∷ b ∷ []) = if is_ascii_space a then 1 else if is_space_2 a b then 2 else 0
space_width (a ∷ b ∷ c ∷ s) =
    if is_ascii_space a then 1 else if is_space_2 a b then 2 else if is_space_3 a b c then 3 else 0

-- The same of a text that is read from its last byte.
space_width_back : Text → ℕ
unfolding is_ascii_space is_space_2 is_space_3
space_width_back [] = 0
space_width_back (a ∷ []) = if is_ascii_space a then 1 else 0
space_width_back (a ∷ b ∷ []) = if is_ascii_space a then 1 else if is_space_2 b a then 2 else 0
space_width_back (a ∷ b ∷ c ∷ s) =
    if is_ascii_space a then 1 else if is_space_2 b a then 2 else if is_space_3 c b a then 3 else 0

-- At each round a byte at least goes, so as many rounds as the text has bytes are enough.
trim_by : (Text → ℕ) → ℕ → Text → Text
trim_by width zero s = s
trim_by width (suc rounds) s = elim (width s) [
  | zero ↦ s
  | suc k ↦ trim_by width rounds (drop (suc k) s)
]

unfoldable pub trim_space : Text → Text
unfolding trim_by space_width space_width_back
trim_space s =
    let front = trim_by space_width (length s) s in
    reverse (trim_by space_width_back (length front) (reverse front))

-- U+0130 and U+212A are the two other letters whose lower case is an ASCII letter.
lower_head : ℕ → Text → ℕ × ℕ
lower_head a [] = if leb b'A' a && leb a b'Z' then (a + 32, 0) else (a, 0)
lower_head a (b ∷ []) =
    if leb b'A' a && leb a b'Z'
    then (a + 32, 0)
    else if a == 0xc4 && b == 0xb0
    then (b'i', 1)
    else (a, 0)
lower_head a (b ∷ c ∷ s) =
    if leb b'A' a && leb a b'Z'
    then (a + 32, 0)
    else if a == 0xc4 && b == 0xb0
    then (b'i', 1)
    else if a == 0xe2 && b == 0x84 && c == 0xaa
    then (b'k', 2)
    else (a, 0)

to_lower_by : ℕ → Text → Text
unfolding lower_head
to_lower_by zero s = []
to_lower_by (suc rounds) [] = []
to_lower_by (suc rounds) (a ∷ s) =
    let (b, more) = lower_head a s in b ∷ to_lower_by rounds (drop more s)

unfoldable pub to_lower : Text → Text
unfolding to_lower_by
to_lower s = to_lower_by (length s) s

-- The order of Go strings, byte by byte.
unfoldable pub text_lt : Text → Text → Bool
text_lt [] [] = false
text_lt [] (b ∷ t) = true
text_lt (a ∷ s) [] = false
text_lt (a ∷ s) (b ∷ t) = ltb a b || (a == b && text_lt s t)

-- fmt's %d of a number that is not negative. A number has at most as many digits as its value
-- plus one.
decimal_by : ℕ → ℕ → Text → Text
decimal_by zero n acc = acc
decimal_by (suc rounds) n acc =
    let more = decimal_by rounds (n / 10) ((b'0' + n % 10) ∷ acc) in
    if ltb n 10 then (b'0' + n) ∷ acc else more

unfoldable pub decimal : ℕ → Text
unfolding decimal_by
decimal n = decimal_by (suc n) n []
