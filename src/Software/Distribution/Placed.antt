-- ===== src/Software/Distribution/Placed.antt =====
-- internal/software: the loops over the prefixes, by what they do for the prefix that SelectPrefix of
-- internal/protocol/prefix.go gives a host.
use mathlib.Core.List.{append_assoc, append-nil}
use home_bench.Base.{
  ◌≡◌, refl, sym, ap, ◌∙◌, inl, inr, Bool, true, false, List, [], ◌∷◌, ◌++◌, Text, trim_space, ◌==◌,
  nat_eq, list_eq, eq_iff, ◌≢◌, if◌then◌else◌, Bool-cases, contains, arith,
}
use home_bench.Protocol.Prefix.{select_prefix, contains-select_prefix}
use home_bench.Software.Distribution.{
  Kind, software_package, bundle, archive, remove_all, mkdir_all, extract, copy_file, Call, Layout,
  attempt, place_calls, place_all, to_prefixes,
}

-- The calls for a prefix are among those, in their order.
abbrev pub Placed : List Call → List Call → Type 0
Placed calls done = (before : List Call) × (after : List Call) × (done ≡ before ++ (calls ++ after))

-- What a prefix is meant to get: the package is extracted into its fresh software directory, and a bundle
-- or an archive is copied to its place, once the directory is there.
abbrev pub installed_at : Layout → Kind → Text → List Call
installed_at at software_package p =
    remove_all (at.dir p) ∷ mkdir_all (at.dir p) ∷ extract (at.dir p) ∷ []
installed_at at bundle p = mkdir_all (at.dir p) ∷ copy_file (at.git_bundle_path p) ∷ []
installed_at at archive p = mkdir_all (at.dir p) ∷ copy_file (at.untar_archive_path p) ∷ []

module _ (at : Layout) (works : List Call → Call → Bool) where
  -- Calls of which none fails.
  attempt-ok :
      (done cs : List Call)
      → (attempt works done cs).1 ≡ true
      → (attempt works done cs).0 ≡ done ++ cs
  unfolding attempt
  attempt-ok done [] h = sym (append-nil done)
  attempt-ok done (c ∷ cs) h = elim (Bool-cases (works done c)) [
    | inl w ↦ rw w (attempt-ok (done ++ (c ∷ [])) cs (rw w at h) ∙ append_assoc done (c ∷ []) cs)
    | inr w ↦ absurd (ground (arith, rw w at h))
  ]

  -- What is done for one entry of the list of prefixes.
  abbrev place_one : Kind → Text → List Call → List Call × Bool
  place_one kind p done =
      if trim_space p == []
      then (done, true)
      else attempt works done (place_calls at works kind (trim_space p))

  abbrev calls_for : Kind → Text → List Call
  calls_for kind p = if trim_space p == [] then [] else place_calls at works kind (trim_space p)

  place_one-ok :
      (kind : Kind) (p : Text) (done : List Call)
      → (place_one kind p done).1 ≡ true
      → (place_one kind p done).0 ≡ done ++ calls_for kind p
  place_one-ok kind p done h = elim (Bool-cases (trim_space p == [])) [
    | inl b ↦ rw b (sym (append-nil done))
    | inr b ↦ rw b (attempt-ok done (place_calls at works kind (trim_space p)) (rw b at h))
  ]

  -- Where the loop does not fail, neither does its first entry, nor the rest.
  place_all-cons :
      (kind : Kind) (p : Text) (ps : List Text) (done : List Call)
      → (place_all at works kind (p ∷ ps) done).1 ≡ true
      → ((place_all at works kind (p ∷ ps) done).0
          ≡ (place_all at works kind ps (done ++ calls_for kind p)).0)
        × ((place_all at works kind ps (done ++ calls_for kind p)).1 ≡ true)
  unfolding place_all
  place_all-cons kind p ps done h = elim (Bool-cases (place_one kind p done).1) [
    | inl w ↦ rw (w, ← (place_one-ok kind p done w)) (refl, rw w at h)
    | inr w ↦ absurd (ground (arith, w, rw w at h))
  ]

  -- The loop goes on from what was done.
  place_all-extends :
      (kind : Kind) (ps : List Text) (done : List Call)
      → (place_all at works kind ps done).1 ≡ true
      → (more : List Call) × ((place_all at works kind ps done).0 ≡ done ++ more)
  unfolding place_all
  place_all-extends kind [] done h = ([], sym (append-nil done))
  place_all-extends kind (p ∷ ps) done h =
      let (here, rest) = place_all-cons kind p ps done h in
      let (more, e) = place_all-extends kind ps (done ++ calls_for kind p) rest in
      (calls_for kind p ++ more, here ∙ e ∙ append_assoc done (calls_for kind p) more)

  place_all-Placed :
      (kind : Kind) (ps : List Text) (done : List Call) (p : Text)
      → (place_all at works kind ps done).1 ≡ true
      → contains p ps ≡ true
      → (trim_space p == []) ≡ false
      → Placed (place_calls at works kind (trim_space p)) (place_all at works kind ps done).0
  unfolding place_all contains
  place_all-Placed kind [] done p h c n = absurd (ground (arith, c))
  place_all-Placed kind (q ∷ ps) done p h c n =
      let (here, rest) = place_all-cons kind q ps done h in
      elim (Bool-cases (q == p)) [
        | inl same ↦
            let (more, e) = place_all-extends kind ps (done ++ calls_for kind q) rest in
            let calls : calls_for kind q ≡ place_calls at works kind (trim_space p) =
              ap (calls_for kind) ((eq_iff q p).0 same) ∙ rw n refl in
            (
              done,
              more,
              here
                  ∙ e
                  ∙ append_assoc done (calls_for kind q) more
                  ∙ ap (λ cs. done ++ (cs ++ more)) calls,
            )
        | inr other ↦
            let (before, after, e) =
              place_all-Placed kind ps (done ++ calls_for kind q) p rest (rw other at c) n in
            (before, after, here ∙ e)
      ]

  to_prefixes-place_all :
      (kind : Kind) (url : Text) (fetched : Bool) (prefixes : List Text)
      → (to_prefixes at works kind url fetched prefixes).1 ≡ true
      → (to_prefixes at works kind url fetched prefixes ≡ place_all at works kind prefixes [])
        × (prefixes ≢ [])
  unfolding to_prefixes
  to_prefixes-place_all kind url fetched [] h = absurd (ground (arith, h))
  to_prefixes-place_all kind url fetched (p ∷ ps) h = elim (Bool-cases (trim_space url == [])) [
    | inl blank ↦ absurd (ground (arith, rw blank at h))
    | inr given ↦ elim (Bool-cases fetched) [
      | inl f ↦ (ground (arith, given, f), λ e. ground (arith, e))
      | inr f ↦ absurd (ground (arith, rw (given, f) at h))
    ]
  ]

  place_calls-installed_at :
      (kind : Kind) (p : Text) → place_calls at works kind p ≡ installed_at at kind p
  unfolding place_calls
  place_calls-installed_at software_package p = refl
  place_calls-installed_at bundle p = refl
  place_calls-installed_at archive p = refl

  -- Where the controller's loop over the prefixes has ended well, and SelectPrefix gives a host a prefix with
  -- no space around it that is not blank: for that prefix, one call directly after the other, its software
  -- directory was cleared, made and the package extracted into it; or it was made and the bundle, or the
  -- archive, was copied to its path there.
  pub to_prefixes-select_prefix :
      (kind : Kind) (url : Text) (fetched : Bool) (prefixes : List Text) (host : Text)
      → (to_prefixes at works kind url fetched prefixes).1 ≡ true
      → trim_space (select_prefix host prefixes) ≡ select_prefix host prefixes
      → select_prefix host prefixes ≢ []
      → Placed
          (installed_at at kind (select_prefix host prefixes))
          (to_prefixes at works kind url fetched prefixes).0
  to_prefixes-select_prefix kind url fetched prefixes host h trimmed some_prefix =
      let (same, some_prefixes) = to_prefixes-place_all kind url fetched prefixes h in
      let not_blank : (trim_space (select_prefix host prefixes) == []) ≡ false =
        elim (Bool-cases (trim_space (select_prefix host prefixes) == [])) [
          | inl b ↦ absurd (
              some_prefix
                (sym trimmed ∙ (eq_iff (trim_space (select_prefix host prefixes)) []).0 b))
          | inr n ↦ n
        ] in
      let placed =
        place_all-Placed kind prefixes [] (select_prefix host prefixes)
          (ap (λ r. r.1) (sym same) ∙ h) (contains-select_prefix host prefixes some_prefixes)
          not_blank in
      rw (same, ← (place_calls-installed_at kind (select_prefix host prefixes)))
        (rw trimmed at placed)
