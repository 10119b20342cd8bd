-- ===== src/Client/Software/Quoting.antt =====
-- What a POSIX shell makes of the texts that shellQuote of internal/client/software.go returns.
use home_bench.Base.{
  ℕ, ◌≡◌, refl, inl, inr, Bool, ◌||◌, [], ◌∷◌, ◌++◌, Option, none, some, Text, ◌==◌, nat_eq, eq_iff,
  if◌then◌else◌, Bool-cases,
}
use home_bench.Client.Software.{replace_quotes, shell_quote}

-- Outside of quotes, between single quotes, and between double quotes.
pub data Quotes : Type 0 where
  bare single double : Quotes

-- The characters that keep a meaning between double quotes.
abbrev pub is_special : ℕ → Bool
is_special c = c == b'$' || (c == b'`' || (c == b'\\' || c == b'!'))

abbrev pub next_quotes : Quotes → ℕ → Quotes
next_quotes bare c = if c == b'\'' then single else double
next_quotes single c = if c == b'\'' then bare else single
next_quotes double c = if c == b'"' then bare else double

-- The character that stands for itself, if any, or a text that the shell may take for more than one
-- literal word.
pub data Read : Type 0 where
  mark : Read
  literal : ℕ → Read
  unsafe : Read

abbrev pub read : Quotes → ℕ → Read
read bare c = if c == b'\'' || c == b'"' then mark else unsafe
read single c = if c == b'\'' then mark else literal c
read double c = if c == b'"' then mark else if is_special c then unsafe else literal c

abbrev pub more : Read → Option Text → Option Text
more mark rest = rest
more (literal c) none = none
more (literal c) (some s) = some (c ∷ s)
more unsafe rest = none

-- The removal of quotes: the word that a text stands for, where it is one word with no expansion.
unfoldable pub unquote : Quotes → Text → Option Text
unquote bare [] = some []
unquote single [] = none
unquote double [] = none
unquote q (c ∷ s) = more (read q c) (unquote (next_quotes q c) s)

unquote-replace_quotes : (s : Text) → unquote single (replace_quotes s ++ (b'\'' ∷ [])) ≡ some s
unfolding unquote replace_quotes
unquote-replace_quotes [] = refl
unquote-replace_quotes (c ∷ s) = elim (Bool-cases (c == b'\'')) [
  | inl e ↦ let same : c ≡ b'\'' = (eq_iff c b'\'').0 e in rw (same, unquote-replace_quotes s) refl
  | inr n ↦ rw (n, n, unquote-replace_quotes s) refl
]

-- A shell reads what shellQuote returns as the very text, whatever it holds: no character of a path
-- is expanded, ends the word, or starts another command.
pub unquote-shell_quote : (s : Text) → unquote bare (shell_quote s) ≡ some s
unfolding unquote shell_quote
unquote-shell_quote s = unquote-replace_quotes s
