-- ===== src/Controller/Server/Tests.antt =====
-- The server's pushes to the browsers and its connections, concretely.
use home_bench.Base.{
  ℕ, ◌+◌, ◌≡◌, refl, inl, true, List, [], ◌∷◌, none, is_some, nat_eq, list_eq, lookup, list_beq,
  contains, arith, codes, whole_floats,
}
use home_bench.Protocol.Config.{Config}
use home_bench.Protocol.Phase.{Phase}
use home_bench.Controller.Registry.{ClientInfo}
use home_bench.Controller.Server.Refresh.{
  Refresh, new_refresh, Event, requests, flushes, run_events, flush_ui, request_ui,
}
use home_bench.Controller.Server.Refresh.Spacing.{Spaced}
use home_bench.Controller.Server.Refresh.Shown.{
  pushes-Spaced, four_steps, request_shown, flushes_at, recent_request_waits,
}
use home_bench.Controller.Server.Sessions.{Server, new_server, register, disconnect, drop_pruned}
use home_bench.Controller.Server.Sessions.Takeover.{drop_pruned-register}

-- A request, a push, another request while the goroutine runs, and its sleep.
abbrev two_pushes : List Event
two_pushes =
    requests 0
    ∷ flushes 1
    ∷ requests 2
    ∷ flushes 3
    ∷ requests 4
    ∷ flushes 5
    ∷ flushes 600000000
    ∷ flushes 600000001
    ∷ []

pushes-Spaced_example : Spaced (run_events two_pushes new_refresh).pushes
pushes-Spaced_example = pushes-Spaced two_pushes (
  omega arith,
  (
    omega arith,
    (omega arith, (omega arith, (omega arith, (omega arith, (omega arith, (omega arith, tt)))))),
  ),
)

abbrev first_push : List Event
first_push = requests 0 ∷ flushes 1 ∷ []

-- A request a millisecond after the end of a push.
abbrev pushed : Refresh
pushed =
    run_events
      (requests 2000000000 ∷ flushes 2000000001 ∷ flushes 2000000002 ∷ flushes 2000000003 ∷ [])
      new_refresh

recent_request_waits_example :
    ((request_ui 2001000000 pushed).pending ≡ true)
    × (run_events (flushes_at (3000000000 ∷ 4000000000 ∷ [])) (request_ui 2001000000 pushed)
        ≡ request_ui 2001000000 pushed)
    × ((request_ui 2001000000 pushed).shown ≡ pushed.shown)
    × ((request_ui 2001000000 pushed).requested ≡ pushed.requested + 1)
unfolding run_events flush_ui request_ui
recent_request_waits_example =
    recent_request_waits 2001000000 pushed (3000000000 ∷ 4000000000 ∷ []) refl refl refl

request_shown_example :
    (run_events
      (requests 2 ∷ four_steps 3 600000000 600000001 600000002)
      (run_events first_push new_refresh)).shown
    ≡ (run_events
        (requests 2 ∷ four_steps 3 600000000 600000001 600000002)
        (run_events first_push new_refresh)).requested
unfolding run_events flush_ui request_ui
request_shown_example =
    request_shown first_push 2 3 600000000 600000001 600000002 (omega arith, (omega arith, tt))
      (omega arith) (inl refl) (omega arith) (omega arith)

abbrev plain : Config ℕ
plain = record {
  test_name = codes "t";
  prefixes = [];
  file_creation_rate = 1;
  file_deletion_rate = 1;
  file_write_bandwidth = 1;
  file_read_bandwidth = 1;
  phase_step_seconds = 1;
  random_write_iops = 1;
  random_read_iops = 1;
  package_url = [];
  startup_command = [];
  git_clone_url = [];
  untar_url = [];
  disabled_phases = [];
}

abbrev fresh_server : Server ℕ
fresh_server = new_server plain []

abbrev stale_info : ClientInfo
stale_info = record {
  id = codes "a";
  hostname = codes "h";
  prefix = [];
  connected_at = 0;
  last_seen = 0;
  status = [];
  phase = Phase.idle;
  selected = true;
}

abbrev back_again : Server ℕ
back_again = (register 5 2 [] (codes "a") (codes "h") fresh_server).0

drop_pruned-register_example :
    (lookup (codes "a") (drop_pruned 9 stale_info back_again).clients ≡ none)
    × (contains 2 (drop_pruned 9 stale_info back_again).closed ≡ true)
    × (is_some (lookup (codes "a") (drop_pruned 9 stale_info back_again).orch.registry) ≡ true)
    × (disconnect 10 2 (codes "a") (drop_pruned 9 stale_info back_again)
        ≡ drop_pruned 9 stale_info back_again)
unfolding list_beq
drop_pruned-register_example =
    drop_pruned-register 5 9 10 2 [] (codes "h") stale_info fresh_server refl
