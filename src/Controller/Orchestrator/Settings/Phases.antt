-- ===== src/Controller/Orchestrator/Settings/Phases.antt =====
-- SetPhaseEnabled (internal/controller/orchestrator.go): what it disables, and what a refused call
-- leaves behind.
use home_bench.Base.{
  ◌≡◌, refl, sym, ◌∙◌, inl, inr, Bool, true, false, not, ◌&&◌, List, [], ◌∷◌, none, some, arith,
  nat_eq, list_eq, list_beq, eq_iff, if◌then◌else◌, Bool-cases, bool_ext, contains,
  contains-add_all, contains-add, contains-remove, contains-select, add_all, add, remove,
}
use home_bench.Protocol.Phase.{
  Phase, phase_eq, phase_beq, toggle_group, toggle_group_same, toggle_group_symm,
}
use home_bench.Protocol.Config.{
  Config, has_text, effective_phase_order, phase_disabled, phase_selected,
  normalize_disabled_phases, active_phase_order, phase_order, software_enabled, git_clone_enabled,
  untar_enabled,
}
use home_bench.Protocol.Config.Normalize.{
  phase_disabled-normalize, in_some_group, normalize_idempotent, contains-active_phase_order,
  in_some_group_of_contains, effective_phase_order-normalize, effective_phase_order-same_group,
}
use home_bench.Controller.Orchestrator.State.{Orchestrator, last_phase}
use home_bench.Controller.Orchestrator.Settings.{
  toggled, toggle_all, set_phase_enabled, overwritten,
}

contains-toggle_all :
    (p : Phase) (enabled : Bool) (gs d : List Phase)
    → contains p (toggle_all enabled gs d) ≡ (if contains p gs then not enabled else contains p d)
unfolding toggle_all contains
contains-toggle_all p enabled [] d = refl
contains-toggle_all p true (g ∷ gs) d =
    contains-toggle_all p true gs (remove g d)
    ∙ ground (arith, contains-remove g p d, eq_iff g p, eq_iff p g)
contains-toggle_all p false (g ∷ gs) d =
    contains-toggle_all p false gs (add g d) ∙ ground (arith, contains-add g p d)

-- The phases of a toggle group are disabled together.
abbrev pub IsGrouped : List Phase → Type 0
IsGrouped ps = (p q : Phase) → contains q (toggle_group p) ≡ true → contains p ps ≡ contains q ps

in_some_group_elim :
    (p : Phase) (ps all : List Phase)
    → ((q : Phase)
        → contains q ps ≡ true
        → contains p (toggle_group q) ≡ true
        → contains p all ≡ true)
    → in_some_group p ps ≡ true
    → contains p all ≡ true
unfolding in_some_group contains
in_some_group_elim p [] all h k = cc
in_some_group_elim p (q ∷ ps) all h k = elim (Bool-cases (contains p (toggle_group q))) [
  | inl m ↦ h q (ground (arith, eq_iff q q)) m
  | inr m ↦ in_some_group_elim p ps all (λ r a b. h r (ground (arith, a)) b) (ground arith)
]

-- In a grouped list the groups add nothing.
in_some_group_of_IsGrouped :
    (p : Phase) (ps : List Phase) → IsGrouped ps → in_some_group p ps ≡ contains p ps
in_some_group_of_IsGrouped p ps g =
    bool_ext _ _ (in_some_group_elim p ps ps (λ q a b. sym (g q p b) ∙ a))
      (in_some_group_of_contains p ps)

same_group :
    (p q r : Phase)
    → contains q (toggle_group p) ≡ true
    → contains p (toggle_group r) ≡ contains q (toggle_group r)
same_group p q r h = rw (toggle_group_symm r p, toggle_group_symm r q, toggle_group_same p q h)

nil_of_contains : (xs : List Phase) → ((p : Phase) → contains p xs ≡ false) → xs ≡ []
unfolding contains
nil_of_contains [] h = refl
nil_of_contains (x ∷ xs) h = ground (arith, h x, eq_iff x x)

module _ {F : Type 0} where
  contains-toggled :
      (p phase : Phase) (enabled : Bool) (c : Config F)
      → contains p (toggled phase enabled c) ≡ (
          (if contains p (toggle_group phase) then not enabled else contains p c.disabled_phases)
          && contains p (effective_phase_order c))
  unfolding toggled contains
  contains-toggled p phase enabled c =
      contains-select _ p (effective_phase_order c)
      ∙ ground (
        arith,
        contains-toggle_all p enabled (toggle_group phase) (add_all c.disabled_phases []),
        contains-add_all p c.disabled_phases [],
      )

  toggled-IsGrouped :
      (phase : Phase) (enabled : Bool) (c : Config F)
      → IsGrouped c.disabled_phases
      → IsGrouped (toggled phase enabled c)
  toggled-IsGrouped phase enabled c g p q h = rw (
    contains-toggled p phase enabled c,
    contains-toggled q phase enabled c,
    same_group p q phase h,
    g p q h,
    effective_phase_order-same_group c p q h,
  )

  abbrev with_disabled : List Phase → Config F → Config F
  with_disabled ps c = record c { disabled_phases = ps }

  effective_phase_order-with_disabled :
      (ps : List Phase) (c : Config F)
      → effective_phase_order (with_disabled ps c) ≡ effective_phase_order c
  unfolding effective_phase_order software_enabled git_clone_enabled untar_enabled
  effective_phase_order-with_disabled ps c = refl

  cfg-set_phase_enabled :
      (phase : Phase) (enabled : Bool) (o : Orchestrator F)
      → (set_phase_enabled phase enabled o).error ≡ none
      → (set_phase_enabled phase enabled o).after.cfg
        ≡ normalize_disabled_phases (with_disabled (toggled phase enabled o.cfg) o.cfg)
  unfolding set_phase_enabled
  cfg-set_phase_enabled phase enabled o h = ground arith

  contains-normalized :
      (p : Phase) (c : Config F)
      → contains p (normalize_disabled_phases c).disabled_phases
        ≡ (contains p (effective_phase_order c) && in_some_group p c.disabled_phases)
  unfolding phase_disabled
  contains-normalized p c = (phase_disabled-normalize c p).0

  -- SetPhaseEnabled, where it returns no error and the phases of each toggle group were disabled
  -- together: afterwards the phases of the toggled group are disabled or enabled as asked, and the
  -- other phases of the plan as before; phases that are not in the plan are not listed.
  pub contains-set_phase_enabled :
      (p phase : Phase) (enabled : Bool) (o : Orchestrator F)
      → IsGrouped o.cfg.disabled_phases
      → (set_phase_enabled phase enabled o).error ≡ none
      → contains p (set_phase_enabled phase enabled o).after.cfg.disabled_phases ≡ (
          (if contains p (toggle_group phase)
            then not enabled
            else contains p o.cfg.disabled_phases)
          && contains p (effective_phase_order o.cfg))
  contains-set_phase_enabled p phase enabled o g h =
      let written : List Phase = toggled phase enabled o.cfg in
      rw (cfg-set_phase_enabled phase enabled o h) (
        contains-normalized p (with_disabled written o.cfg)
        ∙ rw
            (
              effective_phase_order-with_disabled written o.cfg,
              in_some_group_of_IsGrouped p written (toggled-IsGrouped phase enabled o.cfg g),
              contains-toggled p phase enabled o.cfg,
            )
            (ground arith))

  effective_phase_order-plain :
      (c : Config F)
      → has_text c.startup_command ≡ false
      → has_text c.git_clone_url ≡ false
      → has_text c.untar_url ≡ false
      → effective_phase_order c ≡ phase_order
  unfolding effective_phase_order software_enabled git_clone_enabled untar_enabled
  effective_phase_order-plain c s g u =
      let off : software_enabled c ≡ false = ground (arith, s) in rw (off, g, u) refl

  toggled_plain :
      (c : Config F)
      → effective_phase_order c ≡ phase_order
      → c.disabled_phases
        ≡ Phase.write_bw ∷ Phase.read_bw ∷ Phase.read_write ∷ Phase.riops ∷ Phase.final_delete ∷ []
      → toggled Phase.create false c ≡ phase_order
  unfolding toggled contains phase_beq toggle_group toggle_all list_beq add add_all
  toggled_plain c h d = rw (h, d) refl

  all_disabled :
      (c : Config F)
      → effective_phase_order c ≡ phase_order
      → c.disabled_phases ≡ phase_order
      → active_phase_order (normalize_disabled_phases c) ≡ []
  unfolding phase_selected
  all_disabled c h d =
      nil_of_contains _
        (λ p. contains-active_phase_order (normalize_disabled_phases c) p ∙ none_selected p)
    where
      none_selected :
          (p : Phase)
          → phase_selected (normalize_disabled_phases (normalize_disabled_phases c)) p ≡ false
      none_selected p =
          let member = in_some_group_of_contains p phase_order in
          rw
            (
              effective_phase_order-normalize (normalize_disabled_phases c),
              effective_phase_order-normalize c,
              normalize_idempotent c p,
              (phase_disabled-normalize c p).0,
              h,
              d,
            )
            (ground (arith, member))

  -- With the software, git and untar phases off and all phases but create and delete disabled, in
  -- the order of the plan, a request to disable create is refused, and yet the stored configuration
  -- has changed: create and delete are disabled now, and riops and final_delete are enabled. The
  -- slice of the stored configuration was overwritten through its copy.
  refused-set_phase_enabled_changes :
      (o : Orchestrator F)
      → o.running ≡ false
      → has_text o.cfg.startup_command ≡ false
      → has_text o.cfg.git_clone_url ≡ false
      → has_text o.cfg.untar_url ≡ false
      → o.cfg.disabled_phases
        ≡ Phase.write_bw ∷ Phase.read_bw ∷ Phase.read_write ∷ Phase.riops ∷ Phase.final_delete ∷ []
      → ((set_phase_enabled Phase.create false o).error ≡ some last_phase)
        × ((set_phase_enabled Phase.create false o).after.cfg.disabled_phases
            ≡ Phase.create ∷ Phase.delete ∷ Phase.write_bw ∷ Phase.read_bw ∷ Phase.read_write ∷ [])
  unfolding set_phase_enabled phase_beq toggle_group contains list_beq overwritten
  refused-set_phase_enabled_changes o r s g u d =
      let plain = effective_phase_order-plain o.cfg s g u in
      let written = toggled_plain o.cfg plain d in
      let off =
        all_disabled (with_disabled phase_order o.cfg)
          (effective_phase_order-with_disabled phase_order o.cfg ∙ plain) refl in
      rw (r, written, plain, off, d) (refl, refl)
