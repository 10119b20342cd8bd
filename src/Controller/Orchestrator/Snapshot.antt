-- ===== src/Controller/Orchestrator/Snapshot.antt =====
-- Snapshot (internal/controller/orchestrator.go): what the UI is shown. The fields that come from the
-- metrics store, the fixed edge tables and the host's name are left out.
use Prim.Native.Nat.{min}
use home_bench.Base.{
  ℕ, ◌-◌, ◌≡◌, ◌<◌, refl, ◌∙◌, inl, inr, Bool, true, false, ◌&&◌, List, [], ◌∷◌, Option, none, some,
  Text, arith, ◌==◌, nat_eq, list_eq, if◌then◌else◌, Bool-cases, length, contains, contains-add_all,
  eq_iff, add_all, ltb, All,
}
use home_bench.Protocol.Phase.{Phase}
use home_bench.Protocol.Config.{Config, effective_phase_order}
use home_bench.Controller.Registry.{ClientInfo, count, list_capped, connection_span}
use home_bench.Controller.Registry.Views.{list_capped_lem}
use home_bench.Controller.Orchestrator.State.{Orchestrator, PhaseSpan}
use home_bench.Controller.Orchestrator.Selection.{is_participant}
use home_bench.Controller.Orchestrator.Lifecycle.Invariant.{IsConsistent, Shape}

pub record UiState (F : Type 0) : Type 0 where
  pub config : Config F
  pub clients : List ClientInfo
  pub running : Bool
  pub phase : Phase
  pub percent : ℕ
  pub started_at : Option ℕ
  pub elapsed : ℕ
  pub startup : ℕ
  pub phase_spans : List PhaseSpan
  pub phase_order : List Phase
  pub status_text : Text
  pub client_count : ℕ
  pub clients_shown : ℕ
  pub participant_count : ℕ
  pub selected_all : Bool

abbrev pub ui_client_limit : ℕ
ui_client_limit = 20

-- The loop that marks the clients of a set.
unfoldable pub mark : List Text → List ClientInfo → List ClientInfo
mark set [] = []
mark set (a ∷ rest) = record a { selected = contains a.id set } ∷ mark set rest

abbrev pub set_of : Option (List Text) → List Text
set_of none = []
set_of (some set) = set

module _ {F : Type 0} where
  -- The set that the snapshot shows: the run's, if there is one, else the selection.
  shown_set : Orchestrator F → List Text
  shown_set o =
      if o.running && ltb 0 (length (set_of o.run_client_set))
      then set_of o.run_client_set
      else o.selected_ids

  shown_elapsed : ℕ → Orchestrator F → ℕ
  shown_elapsed now o =
      if o.running
      then elim o.started_at [ none ↦ o.elapsed | some start ↦ now - start ]
      else o.elapsed

  -- Snapshot
  unfoldable pub snapshot : ℕ → Orchestrator F → UiState F
  unfolding shown_set shown_elapsed
  snapshot now o =
      let total = count o.registry in
      let clients = list_capped ui_client_limit o.registry in
      let set = shown_set o in
      record {
        config = o.cfg;
        clients = mark set clients;
        running = o.running;
        phase = o.phase;
        percent = o.percent;
        started_at = o.started_at;
        elapsed = shown_elapsed now o;
        startup = connection_span o.registry;
        phase_spans = o.phase_spans;
        phase_order = effective_phase_order o.cfg;
        status_text = o.status_text;
        client_count = total;
        clients_shown = length clients;
        participant_count = length set;
        selected_all = ltb 0 (length set) && length set == total;
      }

length_pos_of_contains :
    (a : Text) (set : List Text) → contains a set ≡ true → ltb 0 (length set) ≡ true
unfolding contains
length_pos_of_contains a [] h = ground arith
length_pos_of_contains a (x ∷ set) h = ground arith

length_pos-add_all : (xs : List Text) → 0 < length xs → ltb 0 (length (add_all xs [])) ≡ true
unfolding contains
length_pos-add_all [] h = ground arith
length_pos-add_all (x ∷ xs) h =
    length_pos_of_contains x (add_all (x ∷ xs) [])
      (contains-add_all x (x ∷ xs) [] ∙ ground (arith, eq_iff x x))

length-mark : (set : List Text) (xs : List ClientInfo) → length (mark set xs) ≡ length xs
unfolding mark
length-mark set [] = refl
length-mark set (a ∷ xs) = ground (arith, length-mark set xs)

All-mark :
    (set : List Text) (p : Text → Bool) (xs : List ClientInfo)
    → ((id : Text) → contains id set ≡ p id)
    → All (λ a. a.selected ≡ p a.id) (mark set xs)
unfolding mark
All-mark set p [] h = tt
All-mark set p (a ∷ xs) h = (h a.id, All-mark set p xs h)

module _ {F : Type 0} where
  -- Whom the UI should show as selected.
  abbrev pub takes_part : Text → Orchestrator F → Bool
  takes_part id o = if o.running then is_participant id o else contains id o.selected_ids

  set_of_Shape :
      (b : Bool) (o : Orchestrator F)
      → b ≡ true
      → Shape b o
      → (o.run_client_set ≡ some (add_all o.run_client_ids []))
        × (ltb 0 (length (add_all o.run_client_ids [])) ≡ true)
  set_of_Shape true o e s = (s.3, length_pos-add_all o.run_client_ids s.1)
  set_of_Shape false o e s = cc

  contains-shown_set :
      (o : Orchestrator F) (id : Text)
      → IsConsistent o
      → contains id (shown_set o) ≡ takes_part id o
  unfolding shown_set is_participant
  contains-shown_set o id v = elim (Bool-cases o.running) [
    | inl r ↦ let (set, some_id) = set_of_Shape o.running o r v.shape in rw (r, set, some_id) refl
    | inr r ↦ rw r refl
  ]

  -- In a consistent state the snapshot marks exactly the clients that take part in the run that is
  -- under way, or are selected for the next one; it shows all clients or the first 20.
  snapshot_lem :
      (now : ℕ) (o : Orchestrator F)
      → IsConsistent o
      → All (λ a. a.selected ≡ takes_part a.id o) (snapshot now o).clients
        × (length (snapshot now o).clients ≡ (snapshot now o).clients_shown)
        × ((snapshot now o).clients_shown ≡ min 20 (snapshot now o).client_count)
  unfolding snapshot
  snapshot_lem now o v = (
    All-mark (shown_set o) (λ id. takes_part id o) (list_capped ui_client_limit o.registry)
        (λ id. contains-shown_set o id v),
    length-mark (shown_set o) (list_capped ui_client_limit o.registry),
    (list_capped_lem ui_client_limit o.registry (omega arith)).1,
  )
