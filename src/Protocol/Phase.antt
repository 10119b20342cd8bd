-- ===== src/Protocol/Phase.antt =====
-- internal/protocol/protocol.go: the phases of a run, and those that toggle together.
use mathlib.Core.Path.{ap₂}
use home_bench.Base.{
  if◌then◌else◌, ℕ, ◌≡◌, refl, ◌∙◌, sym, ◌↔◌, Bool, true, ◌&&◌, List, [], ◌∷◌, arith, Text, codes,
  DecEq, ◌==◌, nat_eq, list_eq, eq_iff, eq_self, contains, bool_ext,
}

-- The source's type is a string. `unknown` stands for a text that is none of the fourteen names.
pub data Phase : Type 0 where
  idle software_unpack software_cold software_warm git_clone untar create delete write_bw : Phase
  read_bw read_write riops final_delete stopped : Phase
  unknown : Text → Phase

tag : Phase → ℕ
tag idle = 0
tag software_unpack = 1
tag software_cold = 2
tag software_warm = 3
tag git_clone = 4
tag untar = 5
tag create = 6
tag delete = 7
tag write_bw = 8
tag read_bw = 9
tag read_write = 10
tag riops = 11
tag final_delete = 12
tag stopped = 13
tag (unknown t) = 14

text_of : Phase → Text
text_of (unknown t) = t
text_of _ = []

-- `p == q` on phases: the texts are compared.
unfoldable pub phase_beq : Phase → Phase → Bool
unfolding tag text_of
phase_beq p q = tag p == tag q && text_of p == text_of q

named : ℕ → Text → Phase
named n t =
    if n == 0
    then idle
    else if n == 1
    then software_unpack
    else if n == 2
    then software_cold
    else if n == 3
    then software_warm
    else if n == 4
    then git_clone
    else if n == 5
    then untar
    else if n == 6
    then create
    else if n == 7
    then delete
    else if n == 8
    then write_bw
    else if n == 9
    then read_bw
    else if n == 10
    then read_write
    else if n == 11
    then riops
    else if n == 12
    then final_delete
    else if n == 13
    then stopped
    else unknown t

named-tag : (p : Phase) → named (tag p) (text_of p) ≡ p
unfolding named tag text_of
named-tag (unknown t) = refl
named-tag _ = refl

tags_equal : (p q : Phase) → tag p ≡ tag q → text_of p ≡ text_of q → p ≡ q
tags_equal p q h k = sym (named-tag p) ∙ ap₂ named h k ∙ named-tag q

pub phase_beq_iff : (p q : Phase) → (phase_beq p q ≡ true) ↔ (p ≡ q)
unfolding phase_beq
phase_beq_iff p q = (
  λ h.
      tags_equal p q (ground (arith, eq_iff (tag p) (tag q)))
        (ground (arith, eq_iff (text_of p) (text_of q))),
  λ e. rw e (ground (arith, eq_self (tag q), eq_self (text_of q))),
)

instance abbrev pub phase_eq : DecEq Phase
phase_eq = record {
  eqb = phase_beq;
  sound = λ p q. (phase_beq_iff p q).0;
  complete = λ p q. (phase_beq_iff p q).1;
}

-- PhaseToggleGroup: the phases that are enabled and disabled together.
unfoldable pub toggle_group : Phase → List Phase
toggle_group software_unpack = software_unpack ∷ software_cold ∷ software_warm ∷ []
toggle_group software_cold = software_unpack ∷ software_cold ∷ software_warm ∷ []
toggle_group software_warm = software_unpack ∷ software_cold ∷ software_warm ∷ []
toggle_group create = create ∷ delete ∷ []
toggle_group delete = create ∷ delete ∷ []
toggle_group p = p ∷ []

pub toggle_group_self : (p : Phase) → contains p (toggle_group p) ≡ true
unfolding toggle_group contains
toggle_group_self idle = ground (arith, eq_self idle)
toggle_group_self p = ground (arith, eq_self p)

-- Two phases of one group have the same group.
pub toggle_group_same :
    (p q : Phase) → contains q (toggle_group p) ≡ true → toggle_group q ≡ toggle_group p
unfolding toggle_group contains
toggle_group_same idle q h = ground (arith, eq_iff idle q)
toggle_group_same p q h = ground (
  arith,
  eq_iff p q,
  eq_iff software_unpack q,
  eq_iff software_cold q,
  eq_iff software_warm q,
  eq_iff create q,
  eq_iff delete q,
)

pub toggle_group_symm : (p q : Phase) → contains q (toggle_group p) ≡ contains p (toggle_group q)
toggle_group_symm p q = bool_ext _ _ (one_way p q) (one_way q p)
  where
    one_way :
        (a b : Phase) → contains b (toggle_group a) ≡ true → contains a (toggle_group b) ≡ true
    one_way a b h = rw (toggle_group_same a b h) (toggle_group_self a)

-- PhaseLabel: the name that the UI shows.
unfoldable pub phase_label : Phase → Text
phase_label idle = codes "Idle"
phase_label software_unpack = codes "Software Unpack"
phase_label software_cold = codes "Software Cold"
phase_label software_warm = codes "Software Warm"
phase_label git_clone = codes "Git Clone"
phase_label untar = codes "Untar"
phase_label create = codes "Create"
phase_label delete = codes "Delete"
phase_label write_bw = codes "Write BW"
phase_label read_bw = codes "Read BW"
phase_label read_write = codes "Read+Write"
phase_label riops = codes "RIOPS"
phase_label final_delete = codes "Final Delete"
phase_label stopped = codes "Stopped"
phase_label (unknown t) = t
