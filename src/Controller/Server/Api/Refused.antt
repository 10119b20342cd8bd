-- ===== src/Controller/Server/Api/Refused.antt =====
-- What a request that is refused leaves, and which are refused: internal/controller/server.go.
use mathlib.Core.List.{append-nil}
use home_bench.Base.{
  ℕ, ◌≡◌, refl, ap, ◌∙◌, ◌⊎◌, inl, inr, Bool, true, false, [], ◌++◌, Option, none, some,
  Option-cases, ◌==◌, if_elim, arith, Float64,
}
use home_bench.Protocol.Phase.{Phase, phase_eq}
use home_bench.Protocol.Config.{Config}
use home_bench.Controller.Orchestrator.State.{Orchestrator, Outcome, Refusal}
use home_bench.Controller.Orchestrator.Settings.{set_config, set_phase_enabled}
use home_bench.Controller.Orchestrator.Selection.{ParticipantUpdate, update_participants}
use home_bench.Controller.Orchestrator.Lifecycle.{start}
use home_bench.Controller.Server.Sessions.{Server}
use home_bench.Controller.Server.Api.{
  get, put, post, other_method, Request, state_request, start_request, stop_request, config_request,
  participants_request, phases_request, Reply, bad_request, conflict, method_not_allowed, Handled,
  with_outcome, unless_error, put_config, handle_config, put_phase, handle_phases, put_participants,
  handle_participants, handle_start, handle_stop, handle_state, handle,
}

-- The status line says 200.
abbrev pub is_success : {F : Type 0} → Reply F → Bool
is_success (bad_request e) = false
is_success (conflict e) = false
is_success method_not_allowed = false
is_success _ = true

-- The orchestrator and the server, apart from which phases are disabled.
abbrev pub but_disabled : {F : Type 0} → Orchestrator F → Orchestrator F
but_disabled o = record o { cfg = record o.cfg { disabled_phases = [] } }

abbrev pub server_but_disabled : {F : Type 0} → Server F → Server F
server_but_disabled s = record s { orch = but_disabled s.orch }

module _ {F : Type 0} where
  -- A method that returns an error leaves no more than that.
  abbrev Harmless : Orchestrator F → Outcome F → Type 0
  Harmless o r = (but_disabled r.after ≡ but_disabled o) × (r.effects ≡ [])

  module _ ⦃f : Float64 F⦄ where
    set_config-Harmless :
        (c : Config F) (o : Orchestrator F) (e : Refusal)
        → (set_config c o).error ≡ some e
        → Harmless o (set_config c o)
    unfolding set_config
    set_config-Harmless c o e h = ground (arith, h)

    set_phase-Harmless :
        (p : Phase) (b : Bool) (o : Orchestrator F) (e : Refusal)
        → (set_phase_enabled p b o).error ≡ some e
        → Harmless o (set_phase_enabled p b o)
    unfolding set_phase_enabled
    set_phase-Harmless p b o e h = ground (arith, h)

  update-Harmless :
      (u : ParticipantUpdate) (o : Orchestrator F) (e : Refusal)
      → (update_participants u o).error ≡ some e
      → Harmless o (update_participants u o)
  unfolding update_participants
  update-Harmless u o e h = ground (arith, h)

  start-Harmless :
      (now : ℕ) (o : Orchestrator F) (e : Refusal)
      → (start now o).error ≡ some e
      → Harmless o (start now o)
  unfolding start
  start-Harmless now o e h = ground (arith, h)

  -- What a handler leaves that was refused.
  abbrev Spared : Server F → Handled F → Type 0
  Spared s h =
      (is_success h.reply ≡ true)
      ⊎ ((server_but_disabled h.server ≡ server_but_disabled s) × (h.refresh ≡ false))

  Spared-with :
      (s : Server F) (r : Outcome F)
      → Harmless s.orch r
      → server_but_disabled (with_outcome r s) ≡ server_but_disabled s
  Spared-with s r (same, none_sent) =
      ap (λ o. record s { orch = o; effects = s.effects ++ r.effects }) same
      ∙ ap (λ es. record (server_but_disabled s) { effects = es })
          (ap (λ es. s.effects ++ es) none_sent ∙ append-nil s.effects)

  unless_error-Spared :
      (error : Option Refusal → Reply F) (r : Outcome F) (s : Server F) (done : Handled F)
      → is_success done.reply ≡ true
      → ((e : Refusal) → r.error ≡ some e → Harmless s.orch r)
      → Spared s (unless_error error r s done)
  unfolding unless_error
  unless_error-Spared error r s done well h = elim (Option-cases r.error) [
    | inl e ↦ rw (unless_error, e) (inl well)
    | inr (x, e) ↦ rw (unless_error, e) (inr (Spared-with s r (h x e), refl))
  ]

  module _ ⦃f : Float64 F⦄ where
    put_config-Spared : (body : Option (Config F)) (s : Server F) → Spared s (put_config body s)
    unfolding put_config
    put_config-Spared none s = inr (refl, refl)
    put_config-Spared (some c) s =
        unless_error-Spared bad_request (set_config c s.orch) s _ refl
          (set_config-Harmless c s.orch)

    put_phase-Spared :
        (now : ℕ) (body : Option (Phase × Bool)) (s : Server F) → Spared s (put_phase now body s)
    unfolding put_phase
    put_phase-Spared now none s = inr (refl, refl)
    put_phase-Spared now (some (p, b)) s =
        if_elim (Spared s) (p == Phase.unknown []) (λ _. inr (refl, refl))
          (λ _.
            unless_error-Spared conflict (set_phase_enabled p b s.orch) s _ refl
              (set_phase-Harmless p b s.orch))

  put_participants-Spared :
      (now : ℕ) (body : Option ParticipantUpdate) (s : Server F)
      → Spared s (put_participants now body s)
  unfolding put_participants
  put_participants-Spared now none s = inr (refl, refl)
  put_participants-Spared now (some u) s =
      unless_error-Spared conflict (update_participants u s.orch) s _ refl
        (update-Harmless u s.orch)

  module _ ⦃f : Float64 F⦄ where
    handle-Spared : (now : ℕ) (r : Request F) (s : Server F) → Spared s (handle now r s)
    unfolding handle handle_state handle_config handle_participants handle_phases handle_start
        handle_stop
    handle-Spared now (state_request m) s = inl refl
    handle-Spared now (config_request get body) s = inl refl
    handle-Spared now (config_request put body) s = put_config-Spared body s
    handle-Spared now (config_request post body) s = put_config-Spared body s
    handle-Spared now (config_request other_method body) s = inr (refl, refl)
    handle-Spared now (participants_request get body) s = inr (refl, refl)
    handle-Spared now (participants_request put body) s = put_participants-Spared now body s
    handle-Spared now (participants_request post body) s = put_participants-Spared now body s
    handle-Spared now (participants_request other_method body) s = inr (refl, refl)
    handle-Spared now (phases_request get body) s = inr (refl, refl)
    handle-Spared now (phases_request put body) s = put_phase-Spared now body s
    handle-Spared now (phases_request post body) s = put_phase-Spared now body s
    handle-Spared now (phases_request other_method body) s = inr (refl, refl)
    handle-Spared now (start_request post) s =
        unless_error-Spared conflict (start now s.orch) s _ refl (start-Harmless now s.orch)
    handle-Spared now (start_request get) s = inr (refl, refl)
    handle-Spared now (start_request put) s = inr (refl, refl)
    handle-Spared now (start_request other_method) s = inr (refl, refl)
    handle-Spared now (stop_request post) s = inl refl
    handle-Spared now (stop_request get) s = inr (refl, refl)
    handle-Spared now (stop_request put) s = inr (refl, refl)
    handle-Spared now (stop_request other_method) s = inr (refl, refl)

    -- Whatever the request: if it is answered with an error status, nothing was sent or saved, no refresh
    -- of the browsers was asked for, and the server is as it was, but perhaps for the phases that are
    -- disabled.
    pub refused_request_lem :
        (now : ℕ) (r : Request F) (s : Server F)
        → is_success (handle now r s).reply ≡ false
        → (server_but_disabled (handle now r s).server ≡ server_but_disabled s)
          × ((handle now r s).refresh ≡ false)
    refused_request_lem now r s h = elim (handle-Spared now r s) [
      | inl well ↦ absurd (ground (arith, well, h))
      | inr spared ↦ spared
    ]
