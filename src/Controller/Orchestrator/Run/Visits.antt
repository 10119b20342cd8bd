-- ===== src/Controller/Orchestrator/Run/Visits.antt =====
-- What a run shows (internal/controller/orchestrator.go) for a list of phases.
use mathlib.Core.List.{append-nil, append_assoc}
use home_bench.Base.{
  ℕ, ◌≡◌, refl, sym, ◌∙◌, ap, inl, inr, Bool, true, false, ◌&&◌, List, [], ◌∷◌, ◌++◌, arith, select,
  if◌then◌else◌, Bool-cases,
}
use home_bench.Protocol.Phase.{Phase}
use home_bench.Protocol.Config.{phase_order}
use home_bench.Controller.Orchestrator.Run.{ramp_percents}
use home_bench.Controller.Orchestrator.Run.Plan.{ladder}

-- What a phase of the plan shows: one-shot phases once at 100%, a preparation by the controller
-- before it, a ramp by its ten percentages, and the two delete phases 100% once more.
abbrev pub visits_of : Phase → List (Phase × ℕ)
visits_of Phase.software_unpack = (Phase.software_unpack, 100) ∷ []
visits_of Phase.software_cold = (Phase.software_cold, 100) ∷ []
visits_of Phase.software_warm = (Phase.software_warm, 100) ∷ []
visits_of Phase.git_clone = (Phase.git_clone, 100) ∷ (Phase.git_clone, 100) ∷ []
visits_of Phase.untar = (Phase.untar, 100) ∷ (Phase.untar, 100) ∷ []
visits_of Phase.create = ladder Phase.create ramp_percents
visits_of Phase.delete = ladder Phase.delete ramp_percents ++ ((Phase.delete, 100) ∷ [])
visits_of Phase.write_bw = ladder Phase.write_bw ramp_percents
visits_of Phase.read_bw = ladder Phase.read_bw ramp_percents
visits_of Phase.read_write = ladder Phase.read_write ramp_percents
visits_of Phase.riops = (Phase.riops, 100) ∷ []
visits_of Phase.final_delete =
    ladder Phase.final_delete ramp_percents ++ ((Phase.final_delete, 100) ∷ [])
visits_of p = []

abbrev pub visits : List Phase → List (Phase × ℕ)
visits [] = []
visits (p ∷ ps) = visits_of p ++ visits ps

visits-append : (ps qs : List Phase) → visits (ps ++ qs) ≡ visits ps ++ visits qs
visits-append [] qs = refl
visits-append (p ∷ ps) qs =
    ap (λ l. visits_of p ++ l) (visits-append ps qs)
    ∙ sym (append_assoc (visits_of p) (visits ps) (visits qs))

select-append :
    (f : Phase → Bool) (ps qs : List Phase) → select f (ps ++ qs) ≡ select f ps ++ select f qs
select-append f [] qs = refl
select-append f (p ∷ ps) qs = ground (arith, select-append f ps qs)

-- The script of one phase, if it is selected.
abbrev pub part : Bool → Phase → List (Phase × ℕ)
part b p = if b then visits_of p else []

visits-select :
    (f : Phase → Bool) (p : Phase) (ps : List Phase)
    → visits (select f (p ∷ ps)) ≡ part (f p) p ++ visits (select f ps)
visits-select f p ps = elim (Bool-cases (f p)) [ inl h ↦ rw h refl | inr h ↦ rw h refl ]

pub visits-select_append :
    (f : Phase → Bool) (ps qs : List Phase)
    → visits (select f (ps ++ qs)) ≡ visits (select f ps) ++ visits (select f qs)
visits-select_append f ps qs =
    rw (select-append f ps qs) (visits-append (select f ps) (select f qs))

pub visits_optional :
    (sel : Phase → Bool) (b : Bool) (p : Phase)
    → visits (select sel (if b then p ∷ [] else [])) ≡ part (b && sel p) p
visits_optional sel true p = visits-select sel p [] ∙ append-nil _
visits_optional sel false p = refl

pub visits_software :
    (sel : Phase → Bool) (b : Bool)
    → sel Phase.software_unpack ≡ sel Phase.software_cold
    → sel Phase.software_warm ≡ sel Phase.software_cold
    → visits (
        select sel (
          if b then Phase.software_unpack ∷ Phase.software_cold ∷ Phase.software_warm ∷ [] else []))
      ≡ (if b && sel Phase.software_cold
          then (Phase.software_unpack, 100)
            ∷ (Phase.software_cold, 100)
            ∷ (Phase.software_warm, 100)
            ∷ []
          else [])
visits_software sel true h k = elim (Bool-cases (sel Phase.software_cold)) [
  | inl m ↦ rw (h, k, m) refl
  | inr m ↦ rw (h, k, m) refl
]
visits_software sel false h k = refl

pub visits_fixed :
    (sel : Phase → Bool)
    → visits (select sel phase_order)
      ≡ part (sel Phase.create) Phase.create
        ++ (part (sel Phase.delete) Phase.delete
            ++ (part (sel Phase.write_bw) Phase.write_bw
                ++ (part (sel Phase.read_bw) Phase.read_bw
                    ++ (part (sel Phase.read_write) Phase.read_write
                        ++ (part (sel Phase.riops) Phase.riops
                            ++ (part (sel Phase.final_delete) Phase.final_delete ++ []))))))
visits_fixed sel =
    rw
      (
        visits-select sel Phase.create,
        visits-select sel Phase.delete,
        visits-select sel Phase.write_bw,
        visits-select sel Phase.read_bw,
        visits-select sel Phase.read_write,
        visits-select sel Phase.riops,
        visits-select sel Phase.final_delete,
      )
      refl

pub nothing : (b : Bool) → if◌then◌else◌ {A = List (Phase × ℕ)} b [] [] ≡ []
nothing true = refl
nothing false = refl

pub select_ext :
    (g h : Phase → Bool) → ((p : Phase) → g p ≡ h p) → (ps : List Phase) → select g ps ≡ select h ps
select_ext g h e [] = refl
select_ext g h e (p ∷ ps) = rw (e p, select_ext g h e ps) refl
