-- ===== src/Controller/Orchestrator/Run/Tests.antt =====
-- Runs of a small configuration (internal/controller/orchestrator.go), a wait for two clients, and
-- the theorems at these.
use home_bench.Base.{
  ℕ, ◌≡◌, ◌≢◌, refl, true, List, [], ◌∷◌, ◌++◌, Text, codes, whole_floats, if◌then◌else◌, nat_beq,
}
use home_bench.Protocol.Phase.{Phase}
use home_bench.Protocol.Config.{Config, active_phase_order, normalize_disabled_phases}
use home_bench.Controller.Registry.{Registry, new_registry, upsert, set_status}
use home_bench.Controller.Orchestrator.Run.{Reply, done, cancelled}
use home_bench.Controller.Orchestrator.Run.Stages.{run}
use home_bench.Controller.Orchestrator.Run.Plan.{shown}
use home_bench.Controller.Orchestrator.Run.Visits.{visits}
use home_bench.Controller.Orchestrator.Run.Completion.{run_follows_plan}
use home_bench.Controller.Orchestrator.Run.Wait.{
  WaitEvent, tick, waiting, wait_clients_idle, wait_clients_idle_ends,
}

abbrev small : Config ℕ
small = record {
  test_name = codes "bench1";
  prefixes = codes "/a" ∷ [];
  file_creation_rate = 1000;
  file_deletion_rate = 1000;
  file_write_bandwidth = 500;
  file_read_bandwidth = 500;
  phase_step_seconds = 30;
  random_write_iops = 0;
  random_read_iops = 0;
  package_url = codes "http://x/p.tgz";
  startup_command = codes "run";
  git_clone_url = [];
  untar_url = [];
  disabled_phases = Phase.create ∷ Phase.read_bw ∷ [];
}

-- The run is stopped in its fourth call.
abbrev stopped_early : ℕ → Reply
stopped_early n = if nat_beq n 3 then cancelled else done

run_follows_plan_example :
    ((rest : List (Phase × ℕ)) × (shown (run stopped_early (normalize_disabled_phases small) 2).log
          ++ rest
        ≡ visits (active_phase_order (normalize_disabled_phases small)))
      × ((run stopped_early (normalize_disabled_phases small) 2).going ≡ true → rest ≡ []))
    × (((i : ℕ) → stopped_early i ≡ done)
        → (run stopped_early (normalize_disabled_phases small) 2).going ≡ true)
run_follows_plan_example = run_follows_plan stopped_early small 2

abbrev pair : List Text
pair = codes "a" ∷ codes "b" ∷ []

abbrev fleet : Registry
fleet =
    (upsert 160 (codes "a") (codes "host1") (codes "/a")
      (upsert 100 (codes "b") (codes "host2") (codes "/a") new_registry).0).0

abbrev at_work : Registry
at_work =
    set_status 200 (codes "a") (codes "running") Phase.software_cold
      (set_status 200 (codes "b") (codes "idle") Phase.idle fleet)

abbrev at_rest : Registry
at_rest = set_status 300 (codes "a") (codes "idle") Phase.idle at_work

abbrev ticks : List WaitEvent
ticks = tick 400 401 402 at_work ∷ tick 800 801 802 at_rest ∷ tick 9000 9001 9002 fleet ∷ []

wait_clients_idle_ends_example : wait_clients_idle pair pair 5000 0 0 ticks ≢ waiting
wait_clients_idle_ends_example = wait_clients_idle_ends pair pair 5000 0 0 ticks refl
