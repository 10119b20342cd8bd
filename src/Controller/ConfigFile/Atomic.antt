-- ===== src/Controller/ConfigFile/Atomic.antt =====
-- What the file holds while SaveConfigFile of internal/controller/configfile.go works, and what
-- LoadConfigFile reads afterwards.
use home_bench.Base.{
  ◌≡◌, refl, ap, ◌∙◌, ◌⊎◌, inl, inr, true, false, not, List, [], ◌∷◌, ◌++◌, map, Option, none, some,
  Text, codes, ◌==◌, nat_eq, list_eq, eq_self, eq_iff, if_elim, Bool-cases, length, length-append,
  lookup, insert, lookup-insert, lookup-delete, All, All-append, arith,
}
use home_bench.Protocol.Config.{Config}
use home_bench.Controller.ConfigFile.{
  Files, loaded, Calls, Saved, temporary, rename, write_and_rename, save_text, last_state, newline,
  parsed, load_config_file, save_config_file,
}

-- The temporary file is another one.
temporary-ne : (path : Text) → (temporary path == path) ≡ false
temporary-ne path = elim (Bool-cases (temporary path == path)) [
  | inl e ↦ absurd (
      omega
        (arith, ap length ((eq_iff (temporary path) path).0 e), length-append path (codes ".tmp")))
  | inr e ↦ e
]

last_state-append_two :
    (disk : Files) (ds : List Files) (d e : Files) → last_state disk (ds ++ (d ∷ e ∷ [])) ≡ e
last_state-append_two disk [] d e = refl
last_state-append_two disk (x ∷ ds) d e = last_state-append_two x ds d e

-- What the file holds: what it held before, or the configuration.
abbrev pub Replaced :
    {F : Type 0} → (Config F → Option Text) → Config F → Text → Files → Files → Type 0
Replaced encode cfg path disk d =
    (lookup path d ≡ lookup path disk)
    ⊎ ((text : Text) × (encode cfg ≡ some text) × (lookup path d ≡ some (text ++ newline)))

module _ (path : Text) (disk : Files) where
  -- What holds of the disk with any temporary file, and of the disk in the end, holds throughout.
  module _ (P : Files → Type 0) (tmp : (t : Text) → P (insert (temporary path) t disk)) where
    partial-All : (ts : List Text) → All P (map (λ t. insert (temporary path) t disk) ts)
    partial-All [] = tt
    partial-All (t ∷ ts) = (tmp t, partial-All ts)

    write-All :
        (calls : Calls) (text : Text)
        → P (rename (temporary path) path text (insert (temporary path) text disk))
        → All P (write_and_rename calls path text disk).states
    unfolding write_and_rename
    write-All calls text end =
        let partial = partial-All calls.write.partials in
        if_elim (λ (s : Saved). All P s.states) (not calls.write.complete) (λ _. partial)
          (λ _.
            if_elim (λ (s : Saved). All P s.states) (not calls.renamed)
              (λ _. All-append P _ _ partial (tmp text, tt))
              (λ _. All-append P _ _ partial (tmp text, (end, tt))))

  write-last :
      (calls : Calls) (text : Text)
      → (write_and_rename calls path text disk).ok ≡ true
      → last_state disk (write_and_rename calls path text disk).states
        ≡ rename (temporary path) path text (insert (temporary path) text disk)
  unfolding write_and_rename
  write-last calls text h = elim (Bool-cases calls.write.complete) [
    | inr failed ↦ absurd (ground (arith, h, failed))
    | inl complete ↦ elim (Bool-cases calls.renamed) [
      | inr failed ↦ absurd (ground (arith, h, failed, complete))
      | inl renamed ↦
          rw (complete, renamed)
            (last_state-append_two disk
              (map (λ t. insert (temporary path) t disk) calls.write.partials)
              (insert (temporary path) text disk)
              (rename (temporary path) path text (insert (temporary path) text disk)))
    ]
  ]

  lookup-rename :
      (text : Text)
      → lookup path (rename (temporary path) path text (insert (temporary path) text disk))
        ≡ some text
  unfolding rename
  lookup-rename text = lookup-insert path path text _ ∙ rw (eq_self path) refl

  module _ (q : Text) (other : (path == q) ≡ false) (apart : (temporary path == q) ≡ false) where
    other-insert : (t : Text) → lookup q (insert (temporary path) t disk) ≡ lookup q disk
    other-insert t = lookup-insert (temporary path) q t disk ∙ rw apart refl

    other-rename :
        (text : Text)
        → lookup q (rename (temporary path) path text (insert (temporary path) text disk))
          ≡ lookup q disk
    unfolding rename
    other-rename text =
        let apart' : (q == temporary path) ≡ false =
          ground (arith, apart, eq_iff q (temporary path), eq_iff (temporary path) q) in
        lookup-insert path q text _
        ∙ rw other (
            lookup-delete (temporary path) q (insert (temporary path) text disk)
            ∙ rw apart' (other-insert text))

  module _ {F : Type 0} (encode : Config F → Option Text) (decode : Text → Option (Config F))
      (calls : Calls) (cfg : Config F) where
    module _ (q : Text) (other : (path == q) ≡ false) (apart : (temporary path == q) ≡ false) where
      abbrev Kept : Files → Type 0
      Kept d = Replaced encode cfg path disk d × (lookup q d ≡ lookup q disk)

      text-Kept : (o : Option Text) → encode cfg ≡ o → All Kept (save_text calls path o disk).states
      unfolding save_text
      text-Kept none e = tt
      text-Kept (some text) e =
          write-All Kept
            (λ t. (
              inl (lookup-insert (temporary path) path t disk ∙ rw (temporary-ne path) refl),
              other-insert q other apart t,
            ))
            calls (text ++ newline)
            (
              inr (text, e, lookup-rename (text ++ newline)),
              other-rename q other apart (text ++ newline),
            )

      -- Whatever fails, and however far SaveConfigFile has come: the file holds what it held before, or
      -- the whole new configuration; and no other file but the temporary one has changed.
      pub save_config_file_replaces :
          All Kept (save_config_file encode decode calls path cfg disk).states
      unfolding save_config_file
      save_config_file_replaces =
          if_elim (λ (s : Saved). All Kept s.states) (not calls.dir_made) (λ _. tt)
            (λ _. text-Kept (encode cfg) refl)

    -- Where SaveConfigFile returns nil, the disk is the one with the file replaced.
    text-saved :
        (o : Option Text)
        → encode cfg ≡ o
        → (save_text calls path o disk).ok ≡ true
        → (text : Text) × (encode cfg ≡ some text)
          × (lookup path (last_state disk (save_text calls path o disk).states)
              ≡ some (text ++ newline))
    unfolding save_text
    text-saved none e h = absurd (ground (arith, h))
    text-saved (some text) e h =
        (text, e, rw (write-last calls (text ++ newline) h) (lookup-rename (text ++ newline)))

    -- What SaveConfigFile has saved, where it returns nil, LoadConfigFile loads, if the decoder reads back
    -- what the encoder writes for the configuration, with a newline behind it.
    pub load-save_config_file :
        (save_config_file encode decode calls path cfg disk).ok ≡ true
        → ((text : Text) → encode cfg ≡ some text → decode (text ++ newline) ≡ some cfg)
        → load_config_file encode decode true path
            (last_state disk (save_config_file encode decode calls path cfg disk).states)
          ≡ loaded cfg
    unfolding save_config_file load_config_file parsed
    load-save_config_file ok reads =
        if_elim
          (λ (s : Saved).
            s.ok ≡ true
            → load_config_file encode decode true path (last_state disk s.states) ≡ loaded cfg)
          (not calls.dir_made) (λ _ h. absurd (ground (arith, h)))
          (λ _ h.
            let (text, e, at) = text-saved (encode cfg) refl h in
            rw (load_config_file, at, reads text e) refl)
          ok
