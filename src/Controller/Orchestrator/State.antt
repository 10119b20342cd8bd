-- ===== src/Controller/Orchestrator/State.antt =====
-- internal/controller/orchestrator.go: the orchestrator's state, what its methods send out, and
-- their errors. Times and durations are nanoseconds. Each method holds the mutex while it changes
-- the state, so it is one step; the registry is the shared one. A method's calls on the network, the
-- metrics store, the run's context and the disk are listed as effects in their order.
use home_bench.Base.{ℕ, Bool, List, Option, Text}
use home_bench.Protocol.Phase.{Phase}
use home_bench.Protocol.Config.{Config}
use home_bench.Controller.Registry.{Registry}

pub record PhaseSpan : Type 0 where
  pub phase : Phase
  pub start : ℕ
  pub end : Option ℕ

pub record Orchestrator (F : Type 0) : Type 0 where
  pub cfg : Config F
  pub registry : Registry
  pub config_path : Text
  pub selected_ids : List Text
  pub auto_select_new : Bool
  pub run_client_ids : List Text
  pub run_client_set : Option (List Text)  -- `none` is the nil map
  pub metrics_interval : ℕ
  pub running : Bool
  pub phase : Phase
  pub percent : ℕ
  pub started_at : Option ℕ
  pub elapsed : ℕ
  pub status_text : Text
  pub fail_message : Text
  pub cancel : Bool  -- whether the run's cancel function is held
  pub phase_spans : List PhaseSpan
  pub files_created : ℕ

-- PhaseCommand, without the fields that the orchestrator leaves at their zero values.
pub record PhaseCommand (F : Type 0) : Type 0 where
  pub phase : Phase
  pub percent : ℕ
  pub duration : ℕ
  pub rate : F
  pub read_rate : F
  pub test_name : Text
  pub file_size : ℕ
  pub package_url : Text
  pub startup_command : Text
  pub git_clone_url : Text
  pub untar_url : Text
  pub force_cleanup : Bool

-- The envelopes that go to clients.
pub data Message (F : Type 0) : Type 0 where
  config_msg : Config F → Message F
  metrics_interval_msg : ℕ → Message F
  command_msg : PhaseCommand F → Message F
  stop_msg : Bool → Message F

pub data Effect (F : Type 0) : Type 0 where
  broadcast : Message F → Effect F
  broadcast_to : List Text → Message F → Effect F
  metrics_begin : Effect F
  metrics_freeze : Effect F
  cancel_run : Effect F
  spawn_run : Config F → ℕ → Effect F
  save_config : Text → Config F → Effect F

pub data Refusal : Type 0 where
  participants_locked config_locked phases_locked already_running : Refusal
  no_clients_registered no_clients_selected no_phases_enabled : Refusal
  test_name_required prefix_required rates_not_positive bandwidth_not_positive : Refusal
  iops_negative step_too_short last_phase : Refusal
  phase_not_in_plan : Phase → Refusal

-- What a method leaves behind: the state, the effects, and the error that it returns.
pub record Outcome (F : Type 0) : Type 0 where
  pub after : Orchestrator F
  pub effects : List (Effect F)
  pub error : Option Refusal
