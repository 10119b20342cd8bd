-- ===== src/Controller/Orchestrator/Selection.antt =====
-- internal/controller/participants.go, and the parts of orchestrator.go on who takes part in a run.
pub mod Laws
use home_bench.Base.{
  ℕ, Bool, true, false, not, ◌&&◌, ◌||◌, List, [], ◌∷◌, Option, none, some, Text, codes, ◌==◌,
  nat_eq, list_eq, if◌then◌else◌, length, take, select, contains, add, remove, add_all, ltb,
  trim_space, to_lower, ℤ, pos_part,
}
use home_bench.Controller.Registry.{Registry, ids, ids_sorted}
use home_bench.Controller.Orchestrator.State.{Orchestrator, Refusal, participants_locked, Outcome}

pub record ParticipantUpdate : Type 0 where
  pub mode : Text
  pub n : ℤ
  pub client_ids : List Text
  pub adds : List Text
  pub removes : List Text

-- The set of the ids that are registered now.
unfoldable pub known_ids : Registry → List Text
known_ids r = add_all (ids r) []

-- The loop over `u.Add`.
add_known : List Text → List Text → List Text → List Text
add_known known [] selected = selected
add_known known (id ∷ rest) selected =
    let t = trim_space id in
    add_known known rest (if contains t known then add t selected else selected)

-- The loop over `u.Remove`.
remove_each : List Text → List Text → List Text
remove_each [] selected = selected
remove_each (id ∷ rest) selected = remove_each rest (remove (trim_space id) selected)

-- The loop that builds a new selection from a list of ids.
replace_known : List Text → List Text → List Text → List Text
replace_known known [] next = next
replace_known known (id ∷ rest) next =
    let t = trim_space id in
    replace_known known rest
      (if t == [] then next else if not (contains t known) then next else add t next)

-- `len(next) > 0 && len(next) == len(known)`
is_everyone : List Text → List Text → Bool
is_everyone next known = ltb 0 (length next) && length next == length known

module _ {F : Type 0} where
  -- A new selection, with the choice whether newcomers join it.
  selecting : Orchestrator F → List Text → Bool → Outcome F
  selecting o next auto = record {
    after = record o { selected_ids = next; auto_select_new = auto };
    effects = [];
    error = none;
  }

  -- UpdateParticipants
  unfoldable pub update_participants : ParticipantUpdate → Orchestrator F → Outcome F
  unfolding selecting is_everyone known_ids add_known remove_each replace_known
  update_participants u o =
      let known = known_ids o.registry in
      let mode = to_lower (trim_space u.mode) in
      let first = add_all (take (pos_part u.n) (ids_sorted o.registry)) [] in
      let changed = remove_each u.removes (add_known known u.adds o.selected_ids) in
      let next = replace_known known u.client_ids [] in
      if o.running
      then record { after = o; effects = []; error = some participants_locked }
      else if mode == codes "all"
      then selecting o (add_all known []) (ltb 0 (length (add_all known [])))
      else if mode == codes "none"
      then selecting o [] false
      else if mode == codes "first_n"
      then selecting o first false
      else if ltb 0 (length u.adds) || ltb 0 (length u.removes)
      then selecting o changed (is_everyone changed known)
      else selecting o next (is_everyone next known)

  -- SetSelectedClients
  unfoldable pub set_selected_clients : List Text → Orchestrator F → Outcome F
  unfolding selecting is_everyone known_ids replace_known
  set_selected_clients client_ids o =
      let known = known_ids o.registry in
      let next = replace_known known client_ids [] in
      if o.running
      then record { after = o; effects = []; error = some participants_locked }
      else selecting o next (is_everyone next known)

  -- OnClientRegistered
  unfoldable pub on_client_registered : Text → Orchestrator F → Orchestrator F
  on_client_registered id o =
      if o.running || not o.auto_select_new
      then o
      else record o { selected_ids = add id o.selected_ids }

  -- IsParticipant
  unfoldable pub is_participant : Text → Orchestrator F → Bool
  is_participant id o =
      if not o.running
      then false
      else elim o.run_client_set [ none ↦ false | some set ↦ contains id set ]

  -- connectedSelectedLocked
  unfoldable pub connected_selected : Orchestrator F → List Text
  unfolding known_ids
  connected_selected o =
      let known = known_ids o.registry in select (λ id. contains id known) o.selected_ids
