-- ===== src/Controller/Orchestrator/Lifecycle/Frozen.antt =====
-- What cannot change while a run is under way, how a lost participant ends it, and whom Stop
-- reaches (internal/controller/orchestrator.go).
use home_bench.Base.{
  if◌then◌else◌, ℕ, ◌+◌, ◌≡◌, refl, ◌∙◌, Bool, true, false, List, [], ◌∷◌, ◌++◌, some, arith, ◌==◌,
  nat_eq, list_eq, list_beq, Text, is_some, Float64, All, contains, contains-add_all, add_all,
}
use home_bench.Protocol.Phase.{Phase}
use home_bench.Protocol.Config.{Config}
use home_bench.Controller.Orchestrator.State.{
  Orchestrator, Outcome, broadcast_to, metrics_freeze, stop_msg, cancel_run,
}
use home_bench.Controller.Orchestrator.Settings.{set_config, set_phase_enabled}
use home_bench.Controller.Orchestrator.Selection.{
  ParticipantUpdate, update_participants, set_selected_clients, on_client_registered,
}
use home_bench.Controller.Orchestrator.Lifecycle.{
  start, stop, on_client_removed, set_phase, finish, update_client_files, notify_stop, lost_message,
}
use home_bench.Controller.Orchestrator.Lifecycle.Invariant.{Shape}
use home_bench.Controller.Orchestrator.Lifecycle.Step.{
  World, Event, registry_changes, loses, stops, notifies, finishes, step, run_events,
}
use home_bench.Controller.Orchestrator.Lifecycle.Soundness.{
  IsSound, step-IsSound, run_events-IsSound,
}

lost_message-ne_nil : (id host : Text) → (lost_message id host == []) ≡ false
unfolding lost_message list_beq
lost_message-ne_nil id host = refl

module _ {F : Type 0} where
  -- A call that is refused: the state is as it was, nothing is sent, and an error is returned.
  abbrev pub IsRefused : Outcome F → Orchestrator F → Type 0
  IsRefused r o = (r.after ≡ o) × (r.effects ≡ []) × (is_some r.error ≡ true)

  abbrev pub is_finish : Event F → Bool
  is_finish (finishes now text) = true
  is_finish _ = false

  -- What a step keeps while a run is under way.
  abbrev pub IsFrozen : Orchestrator F → Orchestrator F → Type 0
  IsFrozen o p =
      (p.running ≡ true)
      × (p.run_client_ids ≡ o.run_client_ids)
      × (p.run_client_set ≡ o.run_client_set)
      × (p.started_at ≡ o.started_at)

  module _ ⦃f : Float64 F⦄ where
    -- While a run is under way SetConfig, SetPhaseEnabled, UpdateParticipants, SetSelectedClients
    -- and Start are refused: the state is as it was, nothing is sent and an error is returned. A
    -- client that registers is not selected.
    locked_while_running :
        (c : Config F) (p : Phase) (b : Bool) (u : ParticipantUpdate) (xs : List Text) (id : Text)
        (now : ℕ) (o : Orchestrator F)
        → o.running ≡ true
        → IsRefused (set_config c o) o
          × IsRefused (set_phase_enabled p b o) o
          × IsRefused (update_participants u o) o
          × IsRefused (set_selected_clients xs o) o
          × IsRefused (start now o) o
          × (on_client_registered id o ≡ o)
    unfolding set_config set_phase_enabled update_participants set_selected_clients start
        on_client_registered
    locked_while_running c p b u xs id now o r =
        (ground arith, ground arith, ground arith, ground arith, ground arith, ground arith)

    step-IsFrozen :
        (e : Event F) (w : World F)
        → is_finish e ≡ false
        → w.orch.running ≡ true
        → IsFrozen w.orch (step e w).orch
    unfolding step set_config set_phase_enabled update_participants set_selected_clients start
        on_client_registered on_client_removed stop set_phase update_client_files
    step-IsFrozen (registry_changes r) w n h = ground arith
    step-IsFrozen e w n h = ground arith

    step-fail_message :
        (e : Event F) (w : World F)
        → is_finish e ≡ false
        → w.orch.running ≡ true
        → (w.orch.fail_message == []) ≡ false
        → (step e w).orch.fail_message ≡ w.orch.fail_message
    unfolding step set_config set_phase_enabled update_participants set_selected_clients start
        on_client_registered on_client_removed stop set_phase update_client_files
    step-fail_message (registry_changes r) w n h k = ground arith
    step-fail_message e w n h k = ground arith

    -- Whatever happens before the run's goroutine finishes, a run that is under way stays so, with
    -- the participants and the start that it had.
    pub run_events-IsFrozen :
        (es : List (Event F)) (w : World F)
        → All (λ e. is_finish e ≡ false) es
        → w.orch.running ≡ true
        → IsFrozen w.orch (run_events es w).orch
    unfolding run_events
    run_events-IsFrozen [] w all h = (h, refl, refl, refl)
    run_events-IsFrozen (e ∷ es) w all h =
        let (r, a, b, c) = step-IsFrozen e w all.0 h in
        let (r', a', b', c') = run_events-IsFrozen es (step e w) all.1 r in
        (r', a' ∙ a, b' ∙ b, c' ∙ c)

    run_events-fail_message :
        (es : List (Event F)) (w : World F)
        → All (λ e. is_finish e ≡ false) es
        → w.orch.running ≡ true
        → (w.orch.fail_message == []) ≡ false
        → (run_events es w).orch.fail_message ≡ w.orch.fail_message
    unfolding run_events
    run_events-fail_message [] w all h k = refl
    run_events-fail_message (e ∷ es) w all h k =
        let same = step-fail_message e w all.0 h k in
        run_events-fail_message es (step e w) all.1 (step-IsFrozen e w all.0 h).0 (rw same k) ∙ same

    Shape-run_client_set :
        (b : Bool) (o : Orchestrator F)
        → b ≡ true
        → Shape b o
        → o.run_client_set ≡ some (add_all o.run_client_ids [])
    Shape-run_client_set true o e s = s.3
    Shape-run_client_set false o e s = cc

    participant_lost :
        (now : ℕ) (id host : Text) (w : World F)
        → IsSound w
        → w.orch.running ≡ true
        → w.orch.fail_message ≡ []
        → contains id w.orch.run_client_ids ≡ true
        → ((step (loses now id host) w).orch.fail_message ≡ lost_message id host)
          × ((step (loses now id host) w).orch.phase ≡ Phase.stopped)
          × ((step (loses now id host) w).pending ≡ w.pending + 1)
    unfolding step on_client_removed contains list_beq
    participant_lost now id host w v r k c =
        let set = Shape-run_client_set w.orch.running w.orch r v.consistent.shape in
        let known = contains-add_all id w.orch.run_client_ids [] in
        (ground (arith, set, known), ground (arith, set, known), ground (arith, set, known))

    status-finish :
        (now : ℕ) (text : Text) (w : World F)
        → w.alive ≡ true
        → (w.orch.fail_message == []) ≡ false
        → (step (finishes now text) w).orch.status_text ≡ w.orch.fail_message
    unfolding step finish
    status-finish now text w a k = ground arith

    -- The goroutine still exists before it finishes.
    sound_end :
        (es : List (Event F)) (w : World F)
        → IsSound w
        → All (λ e. is_finish e ≡ false) es
        → w.orch.running ≡ true
        → (run_events es w).alive ≡ true
    sound_end es w v all r = (run_events-IsSound es w v).owned ∙ (run_events-IsFrozen es w all r).0

    -- What the loss asks for, and the notice that goes out after it.
    loss_sent :
        (now : ℕ) (id host : Text) (w : World F)
        → IsSound w
        → w.orch.running ≡ true
        → w.orch.fail_message ≡ []
        → contains id w.orch.run_client_ids ≡ true
        → ((step (loses now id host) w).sent
            ≡ w.sent ++ (if w.orch.cancel then cancel_run ∷ [] else []))
          × ((step notifies (step (loses now id host) w)).sent
              ≡ (step (loses now id host) w).sent
                ++ (broadcast_to w.orch.run_client_ids (stop_msg true) ∷ metrics_freeze ∷ []))
    unfolding step on_client_removed notify_stop contains list_beq
    loss_sent now id host w v r k c =
        let set = Shape-run_client_set w.orch.running w.orch r v.consistent.shape in
        let known = contains-add_all id w.orch.run_client_ids [] in
        (ground (arith, set, known), ground (arith, set, known))

    -- In a sound state, when a participant of a run is lost that is under way and has not failed
    -- yet: its loss shows the phase as stopped and cancels the run where that holds its cancel function; if
    -- the clients are notified before anything else happens, a stop goes to exactly the run's participants;
    -- and whatever happens until the run's goroutine finishes, and with whatever text it finishes, the
    -- status is the message that names the lost participant.
    pub lost_participant_fails_run :
        (now later : ℕ) (id host text : Text) (es : List (Event F)) (w : World F)
        → IsSound w
        → w.orch.running ≡ true
        → w.orch.fail_message ≡ []
        → contains id w.orch.run_client_ids ≡ true
        → All (λ e. is_finish e ≡ false) es
        → ((step (loses now id host) w).orch.phase ≡ Phase.stopped)
          × ((step (loses now id host) w).sent
              ≡ w.sent ++ (if w.orch.cancel then cancel_run ∷ [] else []))
          × ((step notifies (step (loses now id host) w)).sent
              ≡ (step (loses now id host) w).sent
                ++ (broadcast_to w.orch.run_client_ids (stop_msg true) ∷ metrics_freeze ∷ []))
          × ((step
                (finishes later text)
                (run_events es (step (loses now id host) w))).orch.status_text
              ≡ lost_message id host)
    lost_participant_fails_run now later id host text es w v r k c all =
        let w' : World F = step (loses now id host) w in
        let (failed, stopped, _) = participant_lost now id host w v r k c in
        let (cancels_it, notice) = loss_sent now id host w v r k c in
        let r' = (step-IsFrozen (loses now id host) w refl r).0 in
        let some_text : (w'.orch.fail_message == []) ≡ false =
          rw failed (lost_message-ne_nil id host) in
        let kept = run_events-fail_message es w' all r' some_text in
        (
          stopped,
          cancels_it,
          notice,
          status-finish later text (run_events es w')
                (sound_end es w' (step-IsSound (loses now id host) w v) all r')
                (rw (kept, failed) (lost_message-ne_nil id host))
              ∙ kept
              ∙ failed,
        )

    -- Stop, on a run that is under way, has not failed and holds its cancel function, cancels it; if
    -- the clients are notified before anything else happens, the stop message goes to exactly the
    -- run's participants.
    stop_notifies_participants :
        (now : ℕ) (w : World F)
        → w.orch.running ≡ true
        → w.orch.fail_message ≡ []
        → w.orch.cancel ≡ true
        → (step notifies (step (stops now) w)).sent
          ≡ (w.sent ++ (cancel_run ∷ []))
            ++ (broadcast_to w.orch.run_client_ids (stop_msg true) ∷ metrics_freeze ∷ [])
    unfolding step stop notify_stop list_beq
    stop_notifies_participants now w r k c = ground (arith, w.pending)

    -- If Stop is called on a run that is under way, has not failed and holds its cancel function,
    -- and the run's goroutine, which exists, finishes before the clients are notified, the stop
    -- message goes to nobody: the participants have been cleared.
    pub late_stop_reaches_nobody :
        (now later : ℕ) (text : Text) (w : World F)
        → w.orch.running ≡ true
        → w.orch.fail_message ≡ []
        → w.orch.cancel ≡ true
        → w.alive ≡ true
        → (step notifies (step (finishes later text) (step (stops now) w))).sent
          ≡ ((w.sent ++ (cancel_run ∷ [])) ++ (metrics_freeze ∷ []))
            ++ (broadcast_to [] (stop_msg true) ∷ metrics_freeze ∷ [])
    unfolding step stop finish notify_stop list_beq
    late_stop_reaches_nobody now later text w r k c a = ground arith
