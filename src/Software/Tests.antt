-- ===== src/Software/Tests.antt =====
-- An archive with a symbolic link, concretely.
use home_bench.Base.{
  ◌≡◌, refl, true, [], ◌∷◌, ◌++◌, Option, some, List, Bool, arith, trim_space, Text, codes, All,
  list_beq, nat_eq,
}
use home_bench.Software.{
  type_symlink, type_reg, Header, mkdir_all, remove, write_file, symlink, has_prefix, is_skipped,
  escapes, extract_tar,
}
use home_bench.Protocol.Prefix.{fnv_sum32a, select_prefix}
use home_bench.Software.Distribution
use home_bench.Software.Distribution.{Layout, Kind, to_prefixes}
use home_bench.Software.Distribution.Placed.{Placed, installed_at, to_prefixes-select_prefix}
use home_bench.Software.Inside.{StaysInside, extract_tar-StaysInside, extract_tar_follows_links}

-- On clean relative names filepath.Join puts a slash between, and filepath.Rel takes the front away; the
-- functions here do so below the directory "d".
abbrev same : Text → Text
same t = t

abbrev below : Text → Text → Text
below d t = d ++ (b'/' ∷ t)

abbrev after_d : Text → Text → Option Text
after_d base (a ∷ b ∷ t) = some t
after_d base t = some t

abbrev in_d : Text → Text
in_d t = codes "d"

abbrev link_out : Header
link_out = record { name = codes "l"; typeflag = type_symlink; mode = 511; linkname = codes "/etc" }

abbrev file_through : Header
file_through = record { name = codes "l/f"; typeflag = type_reg; mode = 420; linkname = [] }

extract_tar-StaysInside_example :
    All
      (StaysInside same below after_d in_d (codes "d"))
      (extract_tar same below after_d in_d
        (λ _ _. true)
        (codes "d")
        (link_out ∷ file_through ∷ [])
        true
        []).0
extract_tar-StaysInside_example =
    extract_tar-StaysInside same below after_d in_d (λ _ _. true) (codes "d")
      (link_out ∷ file_through ∷ []) true

extract_tar_follows_links_example :
    extract_tar same below after_d in_d
      (λ _ _. true)
      (codes "d")
      (link_out ∷ file_through ∷ [])
      true
      []
    ≡ (
      mkdir_all (codes "d")
          ∷ remove (codes "d/l")
          ∷ symlink (codes "/etc") (codes "d/l")
          ∷ mkdir_all (codes "d")
          ∷ write_file (codes "d/l/f") 420
          ∷ [],
      true,
    )
unfolding is_skipped escapes has_prefix list_beq
extract_tar_follows_links_example =
    extract_tar_follows_links same below after_d in_d (codes "d") link_out file_through (codes "f")
      refl refl refl refl refl refl refl refl

abbrev plain_layout : Layout
plain_layout = record {
  dir = λ p. p ++ codes "/software";
  git_bundle_path = λ p. p ++ codes "/repo.bundle";
  untar_archive_path = λ p. p ++ codes "/archive";
}

abbrev never_fails : List Distribution.Call → Distribution.Call → Bool
never_fails _ _ = true

abbrev two_prefixes : List Text
two_prefixes = codes "/a" ∷ codes " " ∷ codes "/a" ∷ []

to_prefixes-select_prefix_example :
    Placed
      (installed_at plain_layout Kind.bundle (select_prefix (codes "g") two_prefixes))
      (to_prefixes plain_layout never_fails Kind.bundle (codes "u") true two_prefixes).0
unfolding to_prefixes list_beq trim_space select_prefix fnv_sum32a
to_prefixes-select_prefix_example =
    to_prefixes-select_prefix plain_layout never_fails Kind.bundle (codes "u") true two_prefixes
      (codes "g") refl refl (λ e. absurd (ground (arith, e)))
