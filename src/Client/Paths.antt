-- ===== src/Client/Paths.antt =====
-- internal/client/paths.go: where the files of a client lie. filepath.Join cleans what it joins: the
-- host's root is its result and an argument here, and the components behind it are digits.
pub mod Distinct
mod Tests
use home_bench.Base.{
  ℕ, ◌+◌, ◌-◌, ◌/◌, ◌%◌, Bool, true, false, ◌||◌, List, [], ◌∷◌, ◌++◌, Text, codes, decimal,
  replicate, length, ◌==◌, nat_eq, list_eq, if◌then◌else◌,
}

-- %04d and the like
unfoldable pub padded : ℕ → ℕ → Text
padded width n = replicate (width - length (decimal n)) b'0' ++ decimal n

-- filepath.Join of a clean path and clean components
unfoldable pub under : Text → Text → Text
under root rest =
    if root == [] || root == codes "."
    then rest
    else if root == codes "/"
    then b'/' ∷ rest
    else root ++ (b'/' ∷ rest)

-- FilePath, from HostRoot
unfoldable pub file_path : Text → ℕ → Text
unfolding padded under
file_path root index =
    under root (
      padded 4 (index / 10000)
      ++ (b'/' ∷ (padded 2 (index / 100 % 100) ++ (b'/' ∷ padded 8 index))))
