-- ===== src/Software/Distribution.antt =====
-- internal/software/unpack.go and shared.go: how the controller places what it has fetched in the software
-- directory of each prefix: UnpackToPrefixes, BundleToPrefixes and DownloadUntarToPrefixes. The downloads,
-- git and the file system are arguments, and so are the paths that filepath.Join makes.
pub mod Placed
use home_bench.Base.{
  ℕ, ◌-◌, Bool, true, false, not, ◌&&◌, ◌||◌, List, [], ◌∷◌, ◌++◌, Text, codes, trim_space,
  to_lower, ◌==◌, nat_eq, list_eq, if◌then◌else◌, length, drop, leb, Option, none, some, ◌≡◌, refl,
  list_beq, arith,
}

-- What is placed: the software_package, which is extracted, a bundle of the repository, or an archive.
pub data Kind : Type 0 where
  software_package bundle archive : Kind

pub data Call : Type 0 where
  remove_all mkdir_all extract copy_file : Text → Call

-- Dir, GitBundlePath and UntarArchivePath of the test, by the prefix.
pub record Layout : Type 0 where
  pub dir : Text → Text
  pub git_bundle_path : Text → Text
  pub untar_archive_path : Text → Text

-- strings.HasSuffix
unfoldable pub has_suffix : Text → Text → Bool
has_suffix s end = leb (length end) (length s) && (drop (length s - length end) s == end)

-- ArchiveSuffix
unfoldable pub archive_suffix : Text → Text
unfolding has_suffix
archive_suffix url =
    let u = to_lower url in
    if has_suffix u (codes ".tar.gz") || has_suffix u (codes ".tgz")
    then codes ".tar.gz"
    else if has_suffix u (codes ".tar.bz2") || has_suffix u (codes ".tbz2")
    then codes ".tar.bz2"
    else if has_suffix u (codes ".tar.xz") || has_suffix u (codes ".txz")
    then codes ".tar.xz"
    else if has_suffix u (codes ".tar")
    then codes ".tar"
    else codes ".tar.gz"

-- `if parsed, err := url.Parse(u); err == nil && parsed.Path != ""`; the path is an argument, if it parses
unfoldable pub path_or : Text → Option Text → Text
path_or u none = u
path_or u (some path) = if path == [] then u else path

-- UntarArchiveName; the path of a URL and filepath.Base are arguments.
unfoldable pub untar_archive_name : (Text → Option Text) → (Text → Text) → Text → Text
unfolding path_or archive_suffix
untar_archive_name path_of base raw_url =
    let u = trim_space raw_url in
    let name = base (path_or u (path_of u)) in
    if name == [] || (name == codes "." || name == codes "/")
    then codes "archive" ++ archive_suffix raw_url
    else name

-- The name stands for a file in the directory, and not for the directory itself or the root.
untar_archive_name_lem :
    (path_of : Text → Option Text) (base : Text → Text) (raw_url : Text)
    → ((untar_archive_name path_of base raw_url == []) ≡ false)
      × ((untar_archive_name path_of base raw_url == codes ".") ≡ false)
      × ((untar_archive_name path_of base raw_url == codes "/") ≡ false)
unfolding untar_archive_name list_beq
untar_archive_name_lem path_of base raw_url = ground arith

-- Calls until one fails, after those before them; `works` says whether a call succeeds, after those.
unfoldable pub attempt : (List Call → Call → Bool) → List Call → List Call → List Call × Bool
attempt works done [] = (done, true)
attempt works done (c ∷ cs) =
    let rest = attempt works (done ++ (c ∷ [])) cs in
    if works done c then rest else (done ++ (c ∷ []), false)

module _ (at : Layout) (works : List Call → Call → Bool) where
  -- For one prefix.
  unfoldable pub place_calls : Kind → Text → List Call
  place_calls software_package prefix =
      remove_all (at.dir prefix) ∷ mkdir_all (at.dir prefix) ∷ extract (at.dir prefix) ∷ []
  place_calls bundle prefix = mkdir_all (at.dir prefix) ∷ copy_file (at.git_bundle_path prefix) ∷ []
  place_calls archive prefix =
      mkdir_all (at.dir prefix) ∷ copy_file (at.untar_archive_path prefix) ∷ []

  -- The loop over the prefixes, which skips the blank ones.
  unfoldable pub place_all : Kind → List Text → List Call → List Call × Bool
  unfolding attempt place_calls
  place_all kind [] done = (done, true)
  place_all kind (p ∷ ps) done =
      let prefix = trim_space p in
      let here =
        if prefix == [] then (done, true) else attempt works done (place_calls kind prefix) in
      let rest = place_all kind ps here.0 in if here.1 then rest else here

  -- The three functions: whether what they place was fetched is an argument, and so is the URL.
  unfoldable pub to_prefixes : Kind → Text → Bool → List Text → List Call × Bool
  unfolding place_all
  to_prefixes kind url fetched prefixes =
      if trim_space url == []
      then ([], false)
      else if length prefixes == 0
      then ([], false)
      else if not fetched
      then ([], false)
      else place_all kind prefixes []

  -- UnpackToPrefixes
  abbrev pub unpack_to_prefixes : Text → Bool → List Text → List Call × Bool
  unpack_to_prefixes = to_prefixes software_package

  -- BundleToPrefixes
  abbrev pub bundle_to_prefixes : Text → Bool → List Text → List Call × Bool
  bundle_to_prefixes = to_prefixes bundle

  -- DownloadUntarToPrefixes
  abbrev pub download_untar_to_prefixes : Text → Bool → List Text → List Call × Bool
  download_untar_to_prefixes = to_prefixes archive
