-- ===== src/Software.antt =====
-- internal/software/unpack.go: the extraction of a package into the tree of a prefix. filepath's Clean,
-- Join, Rel and Dir are arguments, and so is what the archive's reader, the context and the file system
-- come to.
pub mod Inside
pub mod Distribution
mod Tests
use home_bench.Base.{
  ℕ, ◌+◌, ◌*◌, Bool, true, false, ◌||◌, ◌&&◌, List, [], ◌∷◌, ◌++◌, Option, none, some, Text, codes,
  ◌==◌, nat_eq, list_eq, if◌then◌else◌,
}

-- The Typeflag of a tar header.
pub data Typeflag : Type 0 where
  type_dir type_reg type_symlink type_other : Typeflag

pub record Header : Type 0 where
  pub name : Text
  pub typeflag : Typeflag
  pub mode : ℕ
  pub linkname : Text

-- What extractTarEntry calls, with the path; `write_file` opens, copies and closes, and `symlink` has
-- what the link points to, and where it is.
pub data Call : Type 0 where
  mkdir_all remove : Text → Call
  write_file : Text → ℕ → Call
  symlink : Text → Text → Call

-- 0o644
abbrev pub default_mode : ℕ
default_mode = 6 * 64 + 4 * 8 + 4

-- strings.HasPrefix
unfoldable pub has_prefix : Text → Text → Bool
has_prefix s [] = true
has_prefix [] (p ∷ ps) = false
has_prefix (c ∷ s) (p ∷ ps) = c == p && has_prefix s ps

-- `_ = os.Remove(target)`: the result is not looked at.
abbrev is_ignored : Call → Bool
is_ignored (remove t) = true
is_ignored _ = false

-- Calls until one fails, after those before them; `works` says whether a call succeeds, after those.
unfoldable pub perform : (List Call → Call → Bool) → List Call → List Call → List Call × Bool
perform works done [] = (done, true)
perform works done (c ∷ cs) =
    let rest = perform works (done ++ (c ∷ [])) cs in
    if is_ignored c || works done c then rest else (done ++ (c ∷ []), false)

-- Whether a relative path, if there is one, leads out.
unfoldable pub escapes : Option Text → Bool
unfolding has_prefix
escapes none = true
escapes (some r) = has_prefix r (codes "..")

-- The names that are passed over: the destination itself, and what leads out of it.
unfoldable pub is_skipped : Text → Bool
unfolding has_prefix
is_skipped name = name == codes "." || (name == codes ".." || has_prefix name (codes "../"))

module _ (clean : Text → Text) (join : Text → Text → Text) (rel : Text → Text → Option Text)
    (dir : Text → Text) where
  -- By the kind of an entry, and its target.
  unfoldable pub calls_of : Typeflag → Header → Text → List Call
  calls_of type_dir hdr target = mkdir_all target ∷ []
  calls_of type_reg hdr target =
      mkdir_all (dir target)
      ∷ write_file target (if hdr.mode == 0 then default_mode else hdr.mode)
      ∷ []
  calls_of type_symlink hdr target =
      mkdir_all (dir target) ∷ remove target ∷ symlink hdr.linkname target ∷ []
  calls_of type_other hdr target = []

  -- The calls for an entry; none where it escapes the destination.
  unfoldable pub entry_calls : Text → Header → Option (List Call)
  unfolding is_skipped calls_of escapes
  entry_calls dest hdr =
      let name = clean hdr.name in
      let target = join dest name in
      if is_skipped name
      then some []
      else if escapes (rel (clean dest) target)
      then none
      else some (calls_of hdr.typeflag hdr target)

  -- extractTarEntry
  unfoldable pub extract_tar_entry :
      (List Call → Call → Bool) → Text → Header → List Call → List Call × Bool
  unfolding entry_calls
  extract_tar_entry works dest hdr done = elim (entry_calls dest hdr) [
    | none ↦ (done, false)
    | some calls ↦ perform works done calls
  ]

  -- The loop of ExtractTarGz over the headers that the reader returns. At its end: `ends` says whether
  -- that is the end of the archive, and not an error of the reader or the context.
  unfoldable pub extract_tar :
      (List Call → Call → Bool) → Text → List Header → Bool → List Call → List Call × Bool
  unfolding extract_tar_entry
  extract_tar works dest [] ends done = (done, ends)
  extract_tar works dest (hdr ∷ hdrs) ends done =
      let entry = extract_tar_entry works dest hdr done in
      let rest = extract_tar works dest hdrs ends entry.0 in if entry.1 then rest else entry
