-- ===== src/Controller/Server/Api/Tests.antt =====
-- Requests of the browser, concretely.
use home_bench.Base.{
  ℕ, ◌≡◌, refl, true, false, [], ◌∷◌, ◌++◌, some, lookup, contains, codes, list_beq, list_eq,
  nat_eq, insert, arith, whole_floats, add, add_all, trim_space,
}
use home_bench.Protocol.Config.{
  Config, active_phase_order, effective_phase_order, software_enabled, has_text,
  normalize_disabled_phases, git_clone_enabled, untar_enabled, phase_disabled,
}
use home_bench.Controller.Orchestrator.State.{Message, stop_msg}
use home_bench.Controller.Orchestrator.Lifecycle.{start, new_orchestrator}
use home_bench.Controller.Orchestrator.Selection.{on_client_registered, connected_selected}
use home_bench.Controller.Registry.{count, upsert, ids}
use home_bench.Controller.Server.Sessions.{Server, new_server, register, connect, enter, close_old}
use home_bench.Controller.Server.Delivery.{Queues, deliver_all}
use home_bench.Controller.Server.Delivery.Reached.{Reached, WithinCapacity}
use home_bench.Controller.Server.Api.{
  post, put, start_request, config_request, handle, handle_start, handle_stop, stop_effects,
  unless_error,
}
use home_bench.Controller.Server.Api.Refused.{is_success, server_but_disabled, refused_request_lem}
use home_bench.Controller.Server.Api.Locked.{running_locks_requests}
use home_bench.Controller.Server.Api.Stopped.{handle_stop-Reached}

abbrev small : Config ℕ
small = record {
  test_name = codes "t";
  prefixes = codes "/d" ∷ [];
  file_creation_rate = 1;
  file_deletion_rate = 1;
  file_write_bandwidth = 1;
  file_read_bandwidth = 1;
  phase_step_seconds = 1;
  random_write_iops = 1;
  random_read_iops = 1;
  package_url = [];
  startup_command = [];
  git_clone_url = [];
  untar_url = [];
  disabled_phases = [];
}

abbrev empty_server : Server ℕ
empty_server = new_server small []

-- A start with no clients.
refused_request_lem_example :
    (server_but_disabled (handle 1 (start_request post) empty_server).server
      ≡ server_but_disabled empty_server)
    × ((handle 1 (start_request post) empty_server).refresh ≡ false)
unfolding handle start new_server new_orchestrator count
refused_request_lem_example = refused_request_lem 1 (start_request post) empty_server refl

-- The server of a run that one client takes part in.
abbrev running_server : Server ℕ
running_server =
    (handle_start 9 post (register 5 2 [] (codes "a") (codes "h") empty_server).0).server

running_server-running :
    (running_server.orch.running ≡ true) × (running_server.orch.fail_message ≡ [])
unfolding handle_start start unless_error register on_client_registered connect enter close_old
    new_server new_orchestrator count upsert insert lookup contains connected_selected list_beq add
    add_all ids active_phase_order effective_phase_order software_enabled has_text trim_space
    normalize_disabled_phases git_clone_enabled untar_enabled phase_disabled
running_server-running = (refl, refl)

running_locks_requests_example :
    ((handle 10 (config_request put (some small)) running_server).server ≡ running_server)
    × ((handle 10 (config_request put (some small)) running_server).refresh ≡ false)
    × (is_success (handle 10 (config_request put (some small)) running_server).reply ≡ false)
running_locks_requests_example =
    running_locks_requests 10 (config_request put (some small)) running_server
      running_server-running.0 refl

abbrev no_messages : Queues (Message ℕ)
no_messages = (codes "a", []) ∷ []

no_messages-WithinCapacity : WithinCapacity no_messages
unfolding lookup
no_messages-WithinCapacity id out at = ground (arith, at)

handle_stop-Reached_example :
    ((handle_stop 10 post running_server).server.effects
      ≡ running_server.effects ++ stop_effects 10 running_server.orch)
    × Reached
        (stop_msg true)
        (contains (codes "a") running_server.orch.run_client_ids)
        (lookup (codes "a") no_messages)
        (lookup
          (codes "a")
          (deliver_all (λ _. (0, 0)) (stop_effects 10 running_server.orch) no_messages))
handle_stop-Reached_example =
    handle_stop-Reached (λ _. (0, 0)) 10 running_server no_messages (codes "a")
      running_server-running.0 running_server-running.1 no_messages-WithinCapacity
