-- ===== src/Controller/Server/Api.antt =====
-- internal/controller/server.go: the HTTP handlers of the browser's requests, and requestUI where they
-- call it. encoding/json is an argument: a body is what it decodes to, or nothing.
pub mod Refused
pub mod Locked
pub mod Stopped
mod Tests
use home_bench.Base.{
  ℕ, Bool, true, false, not, ◌&&◌, ◌||◌, List, [], ◌∷◌, ◌++◌, Option, none, some, ◌==◌,
  if◌then◌else◌, Float64,
}
use home_bench.Protocol.Phase.{Phase, phase_eq}
use home_bench.Protocol.Config.{Config}
use home_bench.Controller.Orchestrator.State.{Orchestrator, Effect, Outcome, Refusal}
use home_bench.Controller.Orchestrator.Settings.{set_config, set_phase_enabled}
use home_bench.Controller.Orchestrator.Selection.{ParticipantUpdate, update_participants}
use home_bench.Controller.Orchestrator.Lifecycle.{start, stop, notify_stop}
use home_bench.Controller.Orchestrator.Snapshot.{UiState, snapshot}
use home_bench.Controller.Server.Sessions.{Server}

pub data Method : Type 0 where
  get put post other_method : Method

pub data Request (F : Type 0) : Type 0 where
  state_request start_request stop_request : Method → Request F
  config_request : Method → Option (Config F) → Request F
  participants_request : Method → Option ParticipantUpdate → Request F
  phases_request : Method → Option (Phase × Bool) → Request F

-- What is written to the browser: a body with the status 200, or an error with its status.
pub data Reply (F : Type 0) : Type 0 where
  state_reply : UiState F → Reply F
  config_reply : Config F → Reply F
  ok_reply : Reply F
  bad_request conflict : Option Refusal → Reply F
  method_not_allowed : Reply F

-- A handled request, and whether requestUI was called.
pub record Handled (F : Type 0) : Type 0 where
  pub server : Server F
  pub reply : Reply F
  pub refresh : Bool

module _ {F : Type 0} where
  abbrev pub with_outcome : Outcome F → Server F → Server F
  with_outcome o s = record s { orch = o.after; effects = s.effects ++ o.effects }

  abbrev pub refused : Reply F → Server F → Handled F
  refused reply s = record { server = s; reply = reply; refresh = false }

  -- `if err := ...; err != nil { http.Error(...); return }`, and what follows where there is none.
  unfoldable pub unless_error :
      (Option Refusal → Reply F) → Outcome F → Server F → Handled F → Handled F
  unless_error error o s done = elim o.error [
    | some e ↦ refused (error (some e)) (with_outcome o s)
    | none ↦ done
  ]

  module _ ⦃f : Float64 F⦄ where
    -- handleConfig, of a configuration that was decoded
    unfoldable pub put_config : Option (Config F) → Server F → Handled F
    unfolding unless_error
    put_config none s = refused (bad_request none) s
    put_config (some cfg) s =
        let o = set_config cfg s.orch in
        unless_error bad_request o s
          (record { server = with_outcome o s; reply = config_reply cfg; refresh = false })

    unfoldable pub handle_config : Method → Option (Config F) → Server F → Handled F
    unfolding put_config
    handle_config get body s = record {
      server = s;
      reply = config_reply s.orch.cfg;
      refresh = false;
    }
    handle_config put body s = put_config body s
    handle_config post body s = put_config body s
    handle_config other_method body s = refused method_not_allowed s

    -- handlePhases
    unfoldable pub put_phase : ℕ → Option (Phase × Bool) → Server F → Handled F
    unfolding unless_error
    put_phase now none s = refused (bad_request none) s
    put_phase now (some (phase, enabled)) s =
        let o = set_phase_enabled phase enabled s.orch in
        let after = with_outcome o s in
        if phase == Phase.unknown []
        then refused (bad_request none) s
        else unless_error conflict o s (record {
          server = after;
          reply = state_reply (snapshot now after.orch);
          refresh = true;
        })

    unfoldable pub handle_phases : ℕ → Method → Option (Phase × Bool) → Server F → Handled F
    unfolding put_phase
    handle_phases now put body s = put_phase now body s
    handle_phases now post body s = put_phase now body s
    handle_phases now _ body s = refused method_not_allowed s

  -- handleParticipants
  unfoldable pub put_participants : ℕ → Option ParticipantUpdate → Server F → Handled F
  unfolding unless_error
  put_participants now none s = refused (bad_request none) s
  put_participants now (some update) s =
      let o = update_participants update s.orch in
      let after = with_outcome o s in
      unless_error conflict o s
        (record { server = after; reply = state_reply (snapshot now after.orch); refresh = true })

  unfoldable pub handle_participants : ℕ → Method → Option ParticipantUpdate → Server F → Handled F
  unfolding put_participants
  handle_participants now put body s = put_participants now body s
  handle_participants now post body s = put_participants now body s
  handle_participants now _ body s = refused method_not_allowed s

  -- handleStart
  unfoldable pub handle_start : ℕ → Method → Server F → Handled F
  unfolding unless_error
  handle_start now post s =
      let o = start now s.orch in
      unless_error conflict o s
        (record { server = with_outcome o s; reply = ok_reply; refresh = true })
  handle_start now _ s = refused method_not_allowed s

  -- What Stop asks for in both of its parts, with nothing between them.
  unfoldable pub stop_effects : ℕ → Orchestrator F → List (Effect F)
  stop_effects now o =
      let stopped = stop now o in
      stopped.0.effects ++ (if stopped.1 then notify_stop stopped.0.after else [])

  -- Stop, and handleStop
  unfoldable pub stop_run : ℕ → Server F → Server F
  unfolding stop_effects
  stop_run now s = record s {
    orch = (stop now s.orch).0.after;
    effects = s.effects ++ stop_effects now s.orch;
  }

  unfoldable pub handle_stop : ℕ → Method → Server F → Handled F
  unfolding stop_run
  handle_stop now post s = record { server = stop_run now s; reply = ok_reply; refresh = true }
  handle_stop now _ s = refused method_not_allowed s

  -- handleState, which looks at no method
  unfoldable pub handle_state : ℕ → Server F → Handled F
  handle_state now s = record {
    server = s;
    reply = state_reply (snapshot now s.orch);
    refresh = false;
  }

  -- Handler
  unfoldable pub handle : ⦃f : Float64 F⦄ → ℕ → Request F → Server F → Handled F
  unfolding handle_config handle_phases handle_participants handle_start handle_stop handle_state
  handle now (state_request m) s = handle_state now s
  handle now (config_request m body) s = handle_config m body s
  handle now (participants_request m body) s = handle_participants now m body s
  handle now (start_request m) s = handle_start now m s
  handle now (stop_request m) s = handle_stop now m s
  handle now (phases_request m body) s = handle_phases now m body s
