-- ===== src/Software/Inside.antt =====
-- Where an extraction works, by its paths: internal/software/unpack.go.
use mathlib.Core.Path.{subst}
use home_bench.Base.{
  ◌≡◌, ◌≢◌, refl, codes, arith, ap, ◌⊎◌, inl, inr, Bool, true, false, List, [], ◌∷◌, ◌++◌, Option,
  none, some, Option-cases, Bool-cases, Text, ◌==◌, nat_eq, list_eq, if_elim, All, All-append,
}
use home_bench.Software.{
  Typeflag, type_dir, type_reg, type_symlink, type_other, Header, Call, mkdir_all, remove,
  write_file, symlink, has_prefix, is_skipped, perform, calls_of, escapes, entry_calls,
  extract_tar_entry, extract_tar,
}

module _ (clean : Text → Text) (join : Text → Text → Text) (rel : Text → Text → Option Text)
    (dir : Text → Text) where
  module _ (dest : Text) where
    -- A path that has a relative path from the destination, which does not begin with "..".
    abbrev pub IsInside : Text → Type 0
    IsInside t =
        (r : Text) × (rel (clean dest) t ≡ some r) × ((rest : Text) → r ≢ codes ".." ++ rest)

    -- What the check of extractTarEntry lets pass.
    checked :
        (o : Option Text)
        → escapes o ≡ false
        → (r : Text) × (o ≡ some r) × ((rest : Text) → r ≢ codes ".." ++ rest)
    unfolding escapes has_prefix
    checked none h = absurd (ground (arith, h))
    checked (some r) h = (
      r,
      refl,
      λ rest e. absurd (ground (arith, subst (λ q. has_prefix q (codes "..") ≡ false) e h)),
    )

    -- A call at such a path, or one that makes the directory of such a path.
    abbrev pub StaysInside : Call → Type 0
    StaysInside (mkdir_all t) = IsInside t ⊎ ((u : Text) × IsInside u × (t ≡ dir u))
    StaysInside (remove t) = IsInside t
    StaysInside (write_file t mode) = IsInside t
    StaysInside (symlink link t) = IsInside t

    -- The calls that were performed are those before and some of those asked for.
    perform-StaysInside :
        (works : List Call → Call → Bool) (done cs : List Call)
        → All StaysInside done
        → All StaysInside cs
        → All StaysInside (perform works done cs).0
    unfolding perform
    perform-StaysInside works done [] h k = h
    perform-StaysInside works done (c ∷ cs) h k =
        let one : All StaysInside (done ++ (c ∷ [])) =
          All-append StaysInside done (c ∷ []) h (k.0, tt) in
        if_elim (λ (r : List Call × Bool). All StaysInside r.0) _
          (λ _. perform-StaysInside works (done ++ (c ∷ [])) cs one k.1) (λ _. one)

    calls_of-StaysInside :
        (kind : Typeflag) (hdr : Header) (t : Text)
        → IsInside t
        → All StaysInside (calls_of clean join rel dir kind hdr t)
    unfolding calls_of
    calls_of-StaysInside type_dir hdr t h = (inl h, tt)
    calls_of-StaysInside type_reg hdr t h = (inr (t, h, refl), (h, tt))
    calls_of-StaysInside type_symlink hdr t h = (inr (t, h, refl), (h, (h, tt)))
    calls_of-StaysInside type_other hdr t h = tt

    abbrev Asked : Option (List Call) → Type 0
    Asked none = Unit
    Asked (some cs) = All StaysInside cs

    entry_calls-StaysInside : (hdr : Header) → Asked (entry_calls clean join rel dir dest hdr)
    unfolding entry_calls
    entry_calls-StaysInside hdr =
        let target = join dest (clean hdr.name) in
        elim (Bool-cases (is_skipped (clean hdr.name))) [
          | inl e ↦ rw e tt
          | inr e ↦ elim (Bool-cases (escapes (rel (clean dest) target))) [
            | inl o ↦ rw (e, o) tt
            | inr h ↦
                rw (e, h)
                  (calls_of-StaysInside hdr.typeflag hdr target
                    (checked (rel (clean dest) target) h))
          ]
        ]

    entry-StaysInside :
        (works : List Call → Call → Bool) (hdr : Header) (done : List Call)
        → All StaysInside done
        → All StaysInside (extract_tar_entry clean join rel dir works dest hdr done).0
    unfolding extract_tar_entry
    entry-StaysInside works hdr done h =
        elim (Option-cases (entry_calls clean join rel dir dest hdr)) [
          | inl e ↦ rw (extract_tar_entry, e) h
          | inr (cs, e) ↦
              rw (extract_tar_entry, e)
                (perform-StaysInside works done cs h (subst Asked e (entry_calls-StaysInside hdr)))
        ]

    extract-from :
        (works : List Call → Call → Bool) (hdrs : List Header) (ends : Bool) (done : List Call)
        → All StaysInside done
        → All StaysInside (extract_tar clean join rel dir works dest hdrs ends done).0
    unfolding extract_tar
    extract-from works [] ends done h = h
    extract-from works (hdr ∷ hdrs) ends done h =
        let entry = extract_tar_entry clean join rel dir works dest hdr done in
        let one : All StaysInside entry.0 = entry-StaysInside works hdr done h in
        if_elim (λ (r : List Call × Bool). All StaysInside r.0) entry.1
          (λ _. extract-from works hdrs ends entry.0 one) (λ _. one)

  -- Whatever an archive holds and whatever fails: each path that the extraction creates, removes or
  -- writes is one whose relative path from the destination does not begin with "..", or the directory
  -- of such a path, which is made.
  pub extract_tar-StaysInside :
      (works : List Call → Call → Bool) (dest : Text) (hdrs : List Header) (ends : Bool)
      → All (StaysInside dest) (extract_tar clean join rel dir works dest hdrs ends []).0
  extract_tar-StaysInside works dest hdrs ends = extract-from dest works hdrs ends [] tt

  -- An entry that passes the checks.
  accepted :
      (dest : Text) (hdr : Header) (kind : Typeflag)
      → hdr.typeflag ≡ kind
      → is_skipped (clean hdr.name) ≡ false
      → escapes (rel (clean dest) (join dest (clean hdr.name))) ≡ false
      → entry_calls clean join rel dir dest hdr
        ≡ some (calls_of clean join rel dir kind hdr (join dest (clean hdr.name)))
  unfolding entry_calls
  accepted dest hdr kind k n i =
      rw (n, i) (ap (λ f. some (calls_of clean join rel dir f hdr (join dest (clean hdr.name)))) k)

  -- A symbolic link and then a file, whose names both pass the checks, where every call succeeds: the link
  -- is made with the Linkname that the archive gives, whatever it points to, and then the file is written at its path,
  -- without a look at what lies on the way: under the link's name, that is wherever the link points.
  pub extract_tar_follows_links :
      (dest : Text) (link file : Header) (rest : Text)
      → link.typeflag ≡ type_symlink
      → file.typeflag ≡ type_reg
      → is_skipped (clean link.name) ≡ false
      → is_skipped (clean file.name) ≡ false
      → escapes (rel (clean dest) (join dest (clean link.name))) ≡ false
      → escapes (rel (clean dest) (join dest (clean file.name))) ≡ false
      → (file.mode == 0) ≡ false
      → join dest (clean file.name) ≡ join dest (clean link.name) ++ (b'/' ∷ rest)
      → extract_tar clean join rel dir (λ _ _. true) dest (link ∷ file ∷ []) true [] ≡ (
        mkdir_all (dir (join dest (clean link.name)))
            ∷ remove (join dest (clean link.name))
            ∷ symlink link.linkname (join dest (clean link.name))
            ∷ mkdir_all (dir (join dest (clean link.name) ++ (b'/' ∷ rest)))
            ∷ write_file (join dest (clean link.name) ++ (b'/' ∷ rest)) file.mode
            ∷ [],
        true,
      )
  unfolding extract_tar extract_tar_entry calls_of perform
  extract_tar_follows_links dest link file rest l f ln fn li fi m at =
      rw
        (
          extract_tar_entry,
          accepted dest link type_symlink l ln li,
          accepted dest file type_reg f fn fi,
          m,
          at,
        )
        (rw (extract_tar_entry, accepted dest link type_symlink l ln li) refl)
