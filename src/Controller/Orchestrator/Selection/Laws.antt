-- ===== src/Controller/Orchestrator/Selection/Laws.antt =====
-- Who is selected after a change of the participants (internal/controller/participants.go).
use home_bench.Base.{
  ◌≡◌, ◌∙◌, inl, inr, Bool, false, not, ◌&&◌, ◌||◌, List, [], ◌∷◌, map, arith, Text, codes, ◌==◌,
  nat_eq, list_eq, eq_iff, if◌then◌else◌, Bool-cases, length, take, ltb, contains, contains-add,
  contains-remove, Distinct, add, remove, contains-add_all, add-Distinct, remove-Distinct,
  add_all-Distinct, select-Distinct, trim_space, to_lower, pos_part, contains-select,
}
use home_bench.Controller.Registry.{Registry, ids, ids_sorted}
use home_bench.Controller.Orchestrator.State.{Orchestrator}
use home_bench.Controller.Orchestrator.Selection.{
  ParticipantUpdate, known_ids, add_known, remove_each, replace_known, update_participants,
  set_selected_clients, connected_selected,
}

abbrev trimmed : List Text → List Text
trimmed = map trim_space

contains-known_ids : (a : Text) (r : Registry) → contains a (known_ids r) ≡ contains a (ids r)
unfolding known_ids contains
contains-known_ids a r = ground (arith, contains-add_all a (ids r) [])

contains-add_known :
    (a : Text) (known xs s : List Text)
    → contains a (add_known known xs s)
      ≡ (contains a s || contains a known && contains a (trimmed xs))
unfolding add_known contains
contains-add_known a known [] s = ground arith
contains-add_known a known (x ∷ xs) s = elim (Bool-cases (contains (trim_space x) known)) [
  | inl h ↦ rw h (
      contains-add_known a known xs (add (trim_space x) s)
      ∙ ground (arith, contains-add (trim_space x) a s, eq_iff (trim_space x) a, h))
  | inr h ↦ rw h (contains-add_known a known xs s ∙ ground (arith, eq_iff (trim_space x) a, h))
]

contains-remove_each :
    (a : Text) (xs s : List Text)
    → contains a (remove_each xs s) ≡ (contains a s && not (contains a (trimmed xs)))
unfolding remove_each contains
contains-remove_each a [] s = ground arith
contains-remove_each a (x ∷ xs) s =
    contains-remove_each a xs (remove (trim_space x) s)
    ∙ ground (
      arith,
      contains-remove (trim_space x) a s,
      eq_iff (trim_space x) a,
      eq_iff a (trim_space x),
    )

replace_step : List Text → Text → List Text → List Text
replace_step known t next =
    if t == [] then next else if not (contains t known) then next else add t next

contains-replace_step :
    (a : Text) (known : List Text) (t : Text) (s : List Text)
    → contains a (replace_step known t s)
      ≡ (contains a s || (t == a && (contains a known && not (a == []))))
unfolding replace_step
contains-replace_step a known t s =
    ground (arith, contains-add t a s, eq_iff t a, eq_iff t [], eq_iff a [])

contains-replace_known :
    (a : Text) (known xs s : List Text)
    → contains a (replace_known known xs s)
      ≡ (contains a s || (contains a (trimmed xs) && (contains a known && not (a == []))))
unfolding replace_known contains replace_step
contains-replace_known a known [] s = ground arith
contains-replace_known a known (x ∷ xs) s =
    contains-replace_known a known xs (replace_step known (trim_space x) s)
    ∙ ground (arith, contains-replace_step a known (trim_space x) s)

add_known-Distinct : (known xs s : List Text) → Distinct s → Distinct (add_known known xs s)
unfolding add_known
add_known-Distinct known [] s d = d
add_known-Distinct known (x ∷ xs) s d = elim (Bool-cases (contains (trim_space x) known)) [
  | inl h ↦ rw h (add_known-Distinct known xs _ (add-Distinct (trim_space x) s d))
  | inr h ↦ rw h (add_known-Distinct known xs s d)
]

remove_each-Distinct : (xs s : List Text) → Distinct s → Distinct (remove_each xs s)
unfolding remove_each
remove_each-Distinct [] s d = d
remove_each-Distinct (x ∷ xs) s d = remove_each-Distinct xs _ (remove-Distinct (trim_space x) s d)

replace_known-Distinct : (known xs s : List Text) → Distinct s → Distinct (replace_known known xs s)
unfolding replace_known
replace_known-Distinct known [] s d = d
replace_known-Distinct known (x ∷ xs) s d = elim (Bool-cases (trim_space x == [])) [
  | inl h ↦ rw h (replace_known-Distinct known xs s d)
  | inr h ↦ elim (Bool-cases (contains (trim_space x) known)) [
    | inl k ↦ rw (h, k) (replace_known-Distinct known xs _ (add-Distinct (trim_space x) s d))
    | inr k ↦ rw (h, k) (replace_known-Distinct known xs s d)
  ]
]

-- Whether an id is selected after the update, by the update's mode.
pub chosen : ParticipantUpdate → Registry → List Text → Text → Bool
chosen u r selected a =
    let mode = to_lower (trim_space u.mode) in
    if mode == codes "all"
    then contains a (ids r)
    else if mode == codes "none"
    then false
    else if mode == codes "first_n"
    then contains a (take (pos_part u.n) (ids_sorted r))
    else if ltb 0 (length u.adds) || ltb 0 (length u.removes)
    then (contains a selected || contains a (ids r) && contains a (trimmed u.adds))
      && not (contains a (trimmed u.removes))
    else contains a (trimmed u.client_ids) && (contains a (ids r) && not (a == []))

module _ {F : Type 0} where
  -- While no run is under way UpdateParticipants selects, by its mode: everybody who is registered;
  -- nobody; the first n by hostname and id (nobody for a negative n); those selected before and
  -- the registered ones that are added, less the removed ones; or the registered ones of the list.
  -- Ids are trimmed, and the empty id of a list is skipped.
  pub contains-update_participants :
      (u : ParticipantUpdate) (o : Orchestrator F) (a : Text)
      → o.running ≡ false
      → contains a (update_participants u o).after.selected_ids
        ≡ chosen u o.registry o.selected_ids a
  unfolding update_participants chosen contains
  contains-update_participants u o a h = ground (
    arith,
    contains-known_ids a o.registry,
    contains-add_all a (known_ids o.registry) [],
    contains-add_all a (take (pos_part u.n) (ids_sorted o.registry)) [],
    contains-remove_each a u.removes (add_known (known_ids o.registry) u.adds o.selected_ids),
    contains-add_known a (known_ids o.registry) u.adds o.selected_ids,
    contains-replace_known a (known_ids o.registry) u.client_ids [],
  )

  pub update_participants-Distinct :
      (u : ParticipantUpdate) (o : Orchestrator F)
      → Distinct o.selected_ids
      → Distinct (update_participants u o).after.selected_ids
  unfolding update_participants
  update_participants-Distinct u o d =
      let known = known_ids o.registry in
      ground (
        arith,
        add_all-Distinct known [] tt,
        add_all-Distinct (take (pos_part u.n) (ids_sorted o.registry)) [] tt,
        remove_each-Distinct u.removes (add_known known u.adds o.selected_ids)
            (add_known-Distinct known u.adds o.selected_ids d),
        replace_known-Distinct known u.client_ids [] tt,
      )

  pub set_selected_clients-Distinct :
      (xs : List Text) (o : Orchestrator F)
      → Distinct o.selected_ids
      → Distinct (set_selected_clients xs o).after.selected_ids
  unfolding set_selected_clients
  set_selected_clients-Distinct xs o d =
      ground (arith, replace_known-Distinct (known_ids o.registry) xs [] tt)

  pub connected_selected-Distinct :
      (o : Orchestrator F) → Distinct o.selected_ids → Distinct (connected_selected o)
  unfolding connected_selected
  connected_selected-Distinct o d = select-Distinct _ o.selected_ids d

  -- Who can take part in a run: the selected clients that are registered.
  pub contains-connected_selected :
      (o : Orchestrator F) (a : Text)
      → contains a (connected_selected o)
        ≡ (contains a (ids o.registry) && contains a o.selected_ids)
  unfolding connected_selected
  contains-connected_selected o a =
      contains-select _ a o.selected_ids ∙ ground (arith, contains-known_ids a o.registry)
