-- ===== src/Controller/Server/Api/Locked.antt =====
-- What a request does while a run is under way: internal/controller/server.go.
use mathlib.Core.List.{append-nil}
use home_bench.Base.{
  ℕ, ◌≡◌, refl, ap, ◌∙◌, inl, inr, Bool, true, false, [], ◌++◌, Option, none, some, Option-cases,
  is_some, ◌==◌, if_elim, arith, Float64,
}
use home_bench.Protocol.Phase.{Phase, phase_eq}
use home_bench.Protocol.Config.{Config}
use home_bench.Controller.Orchestrator.State.{Orchestrator, Outcome, Refusal}
use home_bench.Controller.Orchestrator.Settings.{set_config, set_phase_enabled}
use home_bench.Controller.Orchestrator.Selection.{ParticipantUpdate, update_participants}
use home_bench.Controller.Orchestrator.Lifecycle.{start}
use home_bench.Controller.Server.Sessions.{Server}
use home_bench.Controller.Server.Api.{
  get, put, post, other_method, Request, state_request, start_request, stop_request, config_request,
  participants_request, phases_request, Reply, bad_request, conflict, Handled, with_outcome,
  unless_error, put_config, handle_config, put_phase, handle_phases, put_participants,
  handle_participants, handle_start, handle_stop, handle_state, handle,
}
use home_bench.Controller.Server.Api.Refused.{is_success}

-- The requests that a browser reads by.
abbrev pub is_read : {F : Type 0} → Request F → Bool
is_read (state_request m) = true
is_read (config_request get body) = true
is_read _ = false

-- Those that stop a run.
abbrev pub is_stop : {F : Type 0} → Request F → Bool
is_stop (stop_request post) = true
is_stop _ = false

module _ {F : Type 0} where
  module _ ⦃f : Float64 F⦄ where
    set_config-locked :
        (c : Config F) (o : Orchestrator F)
        → o.running ≡ true
        → ((set_config c o).after ≡ o)
          × ((set_config c o).effects ≡ [])
          × (is_some (set_config c o).error ≡ true)
    unfolding set_config
    set_config-locked c o r = ground (arith, r)

    set_phase-locked :
        (p : Phase) (b : Bool) (o : Orchestrator F)
        → o.running ≡ true
        → ((set_phase_enabled p b o).after ≡ o)
          × ((set_phase_enabled p b o).effects ≡ [])
          × (is_some (set_phase_enabled p b o).error ≡ true)
    unfolding set_phase_enabled
    set_phase-locked p b o r = ground (arith, r)

  update-locked :
      (u : ParticipantUpdate) (o : Orchestrator F)
      → o.running ≡ true
      → ((update_participants u o).after ≡ o)
        × ((update_participants u o).effects ≡ [])
        × (is_some (update_participants u o).error ≡ true)
  unfolding update_participants
  update-locked u o r = ground (arith, r)

  start-locked :
      (now : ℕ) (o : Orchestrator F)
      → o.running ≡ true
      → ((start now o).after ≡ o)
        × ((start now o).effects ≡ [])
        × (is_some (start now o).error ≡ true)
  unfolding start
  start-locked now o r = ground (arith, r)

  -- A request that has no effect, with that status.
  abbrev Ineffective : Bool → Server F → Handled F → Type 0
  Ineffective well s h = (h.server ≡ s) × (h.refresh ≡ false) × (is_success h.reply ≡ well)

  unless_error-Ineffective :
      (error : Option Refusal → Reply F) (r : Outcome F) (s : Server F) (done : Handled F)
      → ((e : Refusal) → is_success (error (some e)) ≡ false)
      → (r.after ≡ s.orch) × (r.effects ≡ []) × (is_some r.error ≡ true)
      → Ineffective false s (unless_error error r s done)
  unfolding unless_error
  unless_error-Ineffective error r s done fails (same, quiet, some_error) =
      elim (Option-cases r.error) [
        | inl e ↦ absurd (ground (arith, some_error, e))
        | inr (x, e) ↦
            let here : with_outcome r s ≡ s =
              ap (λ o. record s { orch = o; effects = s.effects ++ r.effects }) same
              ∙ ap (λ es. record s { effects = es })
                  (ap (λ es. s.effects ++ es) quiet ∙ append-nil s.effects) in
            rw (unless_error, e) (here, refl, fails x)
      ]

  module _ ⦃f : Float64 F⦄ where
    put_config-Ineffective :
        (body : Option (Config F)) (s : Server F)
        → s.orch.running ≡ true
        → Ineffective false s (put_config body s)
    unfolding put_config
    put_config-Ineffective none s r = (refl, refl, refl)
    put_config-Ineffective (some c) s r =
        unless_error-Ineffective bad_request (set_config c s.orch) s _ (λ _. refl)
          (set_config-locked c s.orch r)

    put_phase-Ineffective :
        (now : ℕ) (body : Option (Phase × Bool)) (s : Server F)
        → s.orch.running ≡ true
        → Ineffective false s (put_phase now body s)
    unfolding put_phase
    put_phase-Ineffective now none s r = (refl, refl, refl)
    put_phase-Ineffective now (some (p, b)) s r =
        if_elim (Ineffective false s) (p == Phase.unknown []) (λ _. (refl, refl, refl))
          (λ _.
            unless_error-Ineffective conflict (set_phase_enabled p b s.orch) s _ (λ _. refl)
              (set_phase-locked p b s.orch r))

  put_participants-Ineffective :
      (now : ℕ) (body : Option ParticipantUpdate) (s : Server F)
      → s.orch.running ≡ true
      → Ineffective false s (put_participants now body s)
  unfolding put_participants
  put_participants-Ineffective now none s r = (refl, refl, refl)
  put_participants-Ineffective now (some u) s r =
      unless_error-Ineffective conflict (update_participants u s.orch) s _ (λ _. refl)
        (update-locked u s.orch r)

  module _ ⦃f : Float64 F⦄ where
    -- While a run is under way only a stop has an effect: every other request leaves the server as it is
    -- and asks for no refresh, and it gets an error status unless it asks for the state or for the
    -- configuration.
    pub running_locks_requests :
        (now : ℕ) (r : Request F) (s : Server F)
        → s.orch.running ≡ true
        → is_stop r ≡ false
        → ((handle now r s).server ≡ s)
          × ((handle now r s).refresh ≡ false)
          × (is_success (handle now r s).reply ≡ is_read r)
    unfolding handle handle_state handle_config handle_participants handle_phases handle_start
        handle_stop
    running_locks_requests now (state_request m) s k n = (refl, refl, refl)
    running_locks_requests now (config_request get body) s k n = (refl, refl, refl)
    running_locks_requests now (config_request put body) s k n = put_config-Ineffective body s k
    running_locks_requests now (config_request post body) s k n = put_config-Ineffective body s k
    running_locks_requests now (config_request other_method body) s k n = (refl, refl, refl)
    running_locks_requests now (participants_request get body) s k n = (refl, refl, refl)
    running_locks_requests now (participants_request put body) s k n =
        put_participants-Ineffective now body s k
    running_locks_requests now (participants_request post body) s k n =
        put_participants-Ineffective now body s k
    running_locks_requests now (participants_request other_method body) s k n = (refl, refl, refl)
    running_locks_requests now (phases_request get body) s k n = (refl, refl, refl)
    running_locks_requests now (phases_request put body) s k n = put_phase-Ineffective now body s k
    running_locks_requests now (phases_request post body) s k n = put_phase-Ineffective now body s k
    running_locks_requests now (phases_request other_method body) s k n = (refl, refl, refl)
    running_locks_requests now (start_request post) s k n =
        unless_error-Ineffective conflict (start now s.orch) s _ (λ _. refl)
          (start-locked now s.orch k)
    running_locks_requests now (start_request get) s k n = (refl, refl, refl)
    running_locks_requests now (start_request put) s k n = (refl, refl, refl)
    running_locks_requests now (start_request other_method) s k n = (refl, refl, refl)
    running_locks_requests now (stop_request post) s k n = absurd (ground (arith, n))
    running_locks_requests now (stop_request get) s k n = (refl, refl, refl)
    running_locks_requests now (stop_request put) s k n = (refl, refl, refl)
    running_locks_requests now (stop_request other_method) s k n = (refl, refl, refl)
