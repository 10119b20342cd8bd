-- ===== src/Protocol/Config/Normalize.antt =====
-- NormalizeDisabledPhases (internal/protocol/protocol.go): which phases it leaves disabled.
use home_bench.Base.{
  ◌≡◌, refl, inl, inr, ◌∙◌, sym, Bool, true, false, ◌&&◌, ◌||◌, List, [], ◌∷◌, ◌++◌, arith,
  list_beq, eq_iff, contains, add, contains-add, add-Distinct, Distinct, if◌then◌else◌, Bool-cases,
  bool_ext, contains-select,
}
use home_bench.Protocol.Phase.{
  Phase, phase_eq, phase_beq, toggle_group, toggle_group_self, toggle_group_same, toggle_group_symm,
}
use home_bench.Protocol.Config.{
  Config, norm_group, norm_phases, effective_phase_order, phase_disabled, normalize_disabled_phases,
  phase_selected, active_phase_order, software_enabled, git_clone_enabled, untar_enabled,
}

-- What the loops compute, with the map and the slice in one list.
extend : List Phase → List Phase → List Phase → List Phase
extend allowed [] out = out
extend allowed (g ∷ gs) out = extend allowed gs (if contains g allowed then add g out else out)

extend_all : List Phase → List Phase → List Phase → List Phase
extend_all allowed [] out = out
extend_all allowed (p ∷ ps) out = extend_all allowed ps (extend allowed (toggle_group p) out)

norm_group-eq-extend :
    (allowed gs out : List Phase)
    → norm_group allowed gs (out, out) ≡ (extend allowed gs out, extend allowed gs out)
unfolding norm_group extend add
norm_group-eq-extend allowed [] out = refl
norm_group-eq-extend allowed (g ∷ gs) out = elim (Bool-cases (contains g allowed)) [
  | inl h ↦ elim (Bool-cases (contains g out)) [
    | inl k ↦ rw (h, k) (norm_group-eq-extend allowed gs out)
    | inr k ↦ rw (h, k) (norm_group-eq-extend allowed gs (out ++ (g ∷ [])))
  ]
  | inr h ↦ rw h (norm_group-eq-extend allowed gs out)
]

norm_phases-eq-extend_all :
    (allowed ps out : List Phase)
    → norm_phases allowed ps (out, out) ≡ (extend_all allowed ps out, extend_all allowed ps out)
unfolding norm_phases extend_all
norm_phases-eq-extend_all allowed [] out = refl
norm_phases-eq-extend_all allowed (p ∷ ps) out =
    rw (norm_group-eq-extend allowed (toggle_group p) out)
      (norm_phases-eq-extend_all allowed ps (extend allowed (toggle_group p) out))

contains-extend :
    (q : Phase) (allowed gs out : List Phase)
    → contains q (extend allowed gs out) ≡ (contains q out || contains q allowed && contains q gs)
unfolding extend contains
contains-extend q allowed [] out = ground arith
contains-extend q allowed (g ∷ gs) out = elim (Bool-cases (contains g allowed)) [
  | inl h ↦
      rw (h, contains-extend q allowed gs (add g out), contains-add g q out)
        (ground (arith, eq_iff g q, h))
  | inr h ↦ rw (h, contains-extend q allowed gs out) (ground (arith, eq_iff g q, h))
]

-- One of the listed phases has `q` in its group.
unfoldable pub in_some_group : Phase → List Phase → Bool
in_some_group q [] = false
in_some_group q (p ∷ ps) = contains q (toggle_group p) || in_some_group q ps

contains-extend_all :
    (q : Phase) (allowed ps out : List Phase)
    → contains q (extend_all allowed ps out)
      ≡ (contains q out || contains q allowed && in_some_group q ps)
unfolding extend_all in_some_group
contains-extend_all q allowed [] out = ground arith
contains-extend_all q allowed (p ∷ ps) out =
    contains-extend_all q allowed ps (extend allowed (toggle_group p) out)
    ∙ ground (arith, contains-extend q allowed (toggle_group p) out)

in_some_group_same :
    (p q : Phase) (ps : List Phase)
    → contains q (toggle_group p) ≡ true
    → in_some_group p ps ≡ in_some_group q ps
unfolding in_some_group
in_some_group_same p q [] h = refl
in_some_group_same p q (r ∷ ps) h = rw (
  toggle_group_symm r p,
  toggle_group_symm r q,
  toggle_group_same p q h,
  in_some_group_same p q ps h,
)

pub in_some_group_of_contains :
    (q : Phase) (ps : List Phase) → contains q ps ≡ true → in_some_group q ps ≡ true
unfolding in_some_group contains
in_some_group_of_contains q [] h = cc
in_some_group_of_contains q (p ∷ ps) h =
    ground (arith, eq_iff p q, toggle_group_self q, in_some_group_of_contains q ps)

-- A member of some group of `ps`, all of which lie in groups of `qs`, lies in a group of `qs`.
in_some_group_trans :
    (q : Phase) (ps qs : List Phase)
    → ((p : Phase) → contains p ps ≡ true → in_some_group p qs ≡ true)
    → in_some_group q ps ≡ true
    → in_some_group q qs ≡ true
unfolding in_some_group contains
in_some_group_trans q [] qs h k = cc
in_some_group_trans q (p ∷ ps) qs h k = elim (Bool-cases (contains q (toggle_group p))) [
  | inl m ↦ sym (in_some_group_same p q qs m) ∙ h p (ground (arith, eq_iff p p))
  | inr m ↦ in_some_group_trans q ps qs (λ r t. h r (ground (arith, t))) (ground arith)
]

extend-Distinct : (allowed gs out : List Phase) → Distinct out → Distinct (extend allowed gs out)
unfolding extend
extend-Distinct allowed [] out d = d
extend-Distinct allowed (g ∷ gs) out d = elim (Bool-cases (contains g allowed)) [
  | inl h ↦ rw h (extend-Distinct allowed gs (add g out) (add-Distinct g out d))
  | inr h ↦ rw h (extend-Distinct allowed gs out d)
]

extend_all-Distinct :
    (allowed ps out : List Phase) → Distinct out → Distinct (extend_all allowed ps out)
unfolding extend_all
extend_all-Distinct allowed [] out d = d
extend_all-Distinct allowed (p ∷ ps) out d =
    extend_all-Distinct allowed ps _ (extend-Distinct allowed (toggle_group p) out d)

module _ {F : Type 0} where
  -- The plan does not depend on the disabled phases.
  pub effective_phase_order-normalize :
      (c : Config F) → effective_phase_order (normalize_disabled_phases c) ≡ effective_phase_order c
  unfolding effective_phase_order normalize_disabled_phases software_enabled git_clone_enabled
      untar_enabled
  effective_phase_order-normalize c = refl

  -- After NormalizeDisabledPhases a phase is disabled exactly when it is in the plan and a phase of
  -- its toggle group was listed as disabled; the list has no repetition.
  pub phase_disabled-normalize :
      (c : Config F) (p : Phase)
      → (phase_disabled (normalize_disabled_phases c) p
          ≡ (contains p (effective_phase_order c) && in_some_group p c.disabled_phases))
        × Distinct (normalize_disabled_phases c).disabled_phases
  unfolding phase_disabled normalize_disabled_phases contains
  phase_disabled-normalize c p =
      let plan = effective_phase_order c in
      (
        rw (norm_phases-eq-extend_all plan c.disabled_phases [])
            (contains-extend_all p plan c.disabled_phases []),
        rw (norm_phases-eq-extend_all plan c.disabled_phases [])
            (extend_all-Distinct plan c.disabled_phases [] tt),
      )

  -- Which phases the plan holds.
  planned : Config F → Phase → Bool
  planned c Phase.software_unpack = software_enabled c
  planned c Phase.software_cold = software_enabled c
  planned c Phase.software_warm = software_enabled c
  planned c Phase.git_clone = git_clone_enabled c
  planned c Phase.untar = untar_enabled c
  planned c Phase.idle = false
  planned c Phase.stopped = false
  planned c (Phase.unknown t) = false
  planned c p = true

  contains-effective_phase_order :
      (c : Config F) (p : Phase) → contains p (effective_phase_order c) ≡ planned c p
  unfolding effective_phase_order contains planned phase_beq list_beq
  contains-effective_phase_order c Phase.idle = ground arith
  contains-effective_phase_order c p = ground arith

  planned-same_group :
      (c : Config F) (p q : Phase) → contains q (toggle_group p) ≡ true → planned c p ≡ planned c q
  unfolding planned toggle_group contains
  planned-same_group c Phase.idle q h = ground (arith, eq_iff Phase.idle q)
  planned-same_group c p q h = ground (
    arith,
    eq_iff p q,
    eq_iff Phase.software_unpack q,
    eq_iff Phase.software_cold q,
    eq_iff Phase.software_warm q,
    eq_iff Phase.create q,
    eq_iff Phase.delete q,
  )

  -- The phases of a toggle group are in the plan together.
  pub effective_phase_order-same_group :
      (c : Config F) (p q : Phase)
      → contains q (toggle_group p) ≡ true
      → contains p (effective_phase_order c) ≡ contains q (effective_phase_order c)
  effective_phase_order-same_group c p q h = rw (
    contains-effective_phase_order c p,
    contains-effective_phase_order c q,
    planned-same_group c p q h,
  )

  -- After NormalizeDisabledPhases the phases of one toggle group are all disabled or all enabled.
  pub phase_disabled-same_group :
      (c : Config F) (p q : Phase)
      → contains q (toggle_group p) ≡ true
      → phase_disabled (normalize_disabled_phases c) p
        ≡ phase_disabled (normalize_disabled_phases c) q
  phase_disabled-same_group c p q h = rw (
    (phase_disabled-normalize c p).0,
    (phase_disabled-normalize c q).0,
    contains-effective_phase_order c p,
    contains-effective_phase_order c q,
    planned-same_group c p q h,
    in_some_group_same p q c.disabled_phases h,
  )

  contains-normalize :
      (c : Config F) (p : Phase)
      → contains p (normalize_disabled_phases c).disabled_phases
        ≡ (contains p (effective_phase_order c) && in_some_group p c.disabled_phases)
  unfolding phase_disabled
  contains-normalize c p = (phase_disabled-normalize c p).0

  -- A second NormalizeDisabledPhases disables the same phases.
  pub normalize_idempotent :
      (c : Config F) (p : Phase)
      → phase_disabled (normalize_disabled_phases (normalize_disabled_phases c)) p
        ≡ phase_disabled (normalize_disabled_phases c) p
  normalize_idempotent c p =
      (phase_disabled-normalize (normalize_disabled_phases c) p).0
      ∙ rw (effective_phase_order-normalize c, (phase_disabled-normalize c p).0)
          (elim (Bool-cases (contains p (effective_phase_order c))) [
            | inl h ↦ rw h (bool_ext _ _ shrinks (keeps h))
            | inr h ↦ rw h
          ])
    where
      shrinks :
          in_some_group p (normalize_disabled_phases c).disabled_phases ≡ true
          → in_some_group p c.disabled_phases ≡ true
      shrinks =
          in_some_group_trans p _ c.disabled_phases (λ r t. ground (arith, contains-normalize c r))

      keeps :
          contains p (effective_phase_order c) ≡ true
          → in_some_group p c.disabled_phases ≡ true
          → in_some_group p (normalize_disabled_phases c).disabled_phases ≡ true
      keeps h k = in_some_group_of_contains p _ (ground (arith, contains-normalize c p))

  -- ActivePhaseOrder holds exactly the phases that are selected once the disabled phases are
  -- normalised.
  pub contains-active_phase_order :
      (c : Config F) (p : Phase)
      → contains p (active_phase_order c) ≡ phase_selected (normalize_disabled_phases c) p
  unfolding active_phase_order phase_selected
  contains-active_phase_order c p =
      contains-select _ p (effective_phase_order (normalize_disabled_phases c)) ∙ ground arith
