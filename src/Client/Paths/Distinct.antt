-- ===== src/Client/Paths/Distinct.antt =====
-- The path of a file in internal/client/paths.go, and its index.
use home_bench.Base.{
  ℕ, ◌-◌, ◌/◌, ◌%◌, ◌≡◌, ◌∙◌, ◌||◌, [], ◌∷◌, ◌++◌, Text, codes, decimal, length, ◌==◌, nat_eq,
  list_eq, if_elim,
}
use home_bench.Base.Texts.Decimal.{
  value_after, value_after-slash, value_after-decimal, value_after-zeros,
}
use home_bench.Client.Paths.{padded, under, file_path}

-- The number in the last component of a path.
abbrev pub index_of : Text → ℕ
index_of path = value_after 0 path

index_of-padded : (width n : ℕ) → index_of (padded width n) ≡ n
unfolding padded
index_of-padded width n =
    value_after-zeros (width - length (decimal n)) (decimal n) ∙ value_after-decimal n

-- What is read behind the last slash does not depend on the root.
index_of-under : (root front s : Text) → index_of (under root (front ++ (b'/' ∷ s))) ≡ index_of s
unfolding under value_after
index_of-under root front s =
    let plain = value_after-slash 0 front s in
    if_elim (λ (t : Text). value_after 0 t ≡ value_after 0 s) (root == [] || root == codes ".")
      (λ _. plain)
      (λ _.
        if_elim (λ (t : Text). value_after 0 t ≡ value_after 0 s) (root == codes "/") (λ _. plain)
          (λ _. value_after-slash 0 root (front ++ (b'/' ∷ s)) ∙ plain))

-- The index of a file can be read back from its path, whatever the prefix, the test and the host are
-- called: two indices of a client never share a path.
pub index_of-file_path : (root : Text) (index : ℕ) → index_of (file_path root index) ≡ index
unfolding file_path
index_of-file_path root index =
    index_of-under root (padded 4 (index / 10000))
      (padded 2 (index / 100 % 100) ++ (b'/' ∷ padded 8 index))
    ∙ value_after-slash 0 (padded 2 (index / 100 % 100)) (padded 8 index)
    ∙ index_of-padded 8 index
