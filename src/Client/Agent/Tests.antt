-- ===== src/Client/Agent/Tests.antt =====
-- An agent's reporting interval and its commands, concretely.
use home_bench.Base.{
  ℕ, ◌≤◌, ◌≡◌, refl, List, ◌∷◌, ◌++◌, length, All, nat_eq, [], codes, contains, list_eq, list_beq,
  true, false, arith, whole_floats,
}
use home_bench.Protocol.Interval.{second}
use home_bench.Protocol.Phase.{Phase}
use home_bench.Protocol.Config.{Config}
use home_bench.Client.Ledger.{clear, count}
use home_bench.Client.Agent.Reporting.{start_metrics, Event, sets, sends, receives, run_events}
use home_bench.Client.Agent.Commands
use home_bench.Client.Agent.Commands.{
  Command, Agent, stops, loop_goes_on, commands, welcomes, new_agent, ready, working, loop_step,
  session_step, receive_command, begin_work, take_welcome, take_command, stop_work, send_status,
}
use home_bench.Client.Agent.Commands.Stopping.{stopped_work_unreported}
use home_bench.Client.Agent.Commands.Race.{stop_and_work, status_of, stop_before_work_lost}
use home_bench.Client.Agent.Reporting.Ticking.{IsAccepted, last_of, last_asked, ticks_at_interval}

-- Two changes are sent before metricsLoop comes to receive the first.
abbrev two_changes : List (Event ℕ)
two_changes = sets 5 ∷ sends ∷ sets 90 ∷ sends ∷ receives ∷ []

ticks_at_interval_example :
    ((run_events two_changes (start_metrics second)).interval
      ≡ last_asked two_changes (start_metrics second) second)
    × IsAccepted (run_events two_changes (start_metrics second)).interval
    × All IsAccepted (run_events two_changes (start_metrics second)).interval_ch
    × (length (run_events two_changes (start_metrics second)).interval_ch ≤ 4)
    × (last_of
          (run_events two_changes (start_metrics second)).ticker
          (run_events two_changes (start_metrics second)).interval_ch
        ≡ (run_events two_changes (start_metrics second)).interval)
unfolding run_events
ticks_at_interval_example = ticks_at_interval second two_changes (omega arith, omega arith) refl

abbrev plain : Config ℕ
plain = record {
  test_name = codes "t";
  prefixes = [];
  file_creation_rate = 1;
  file_deletion_rate = 1;
  file_write_bandwidth = 1;
  file_read_bandwidth = 1;
  phase_step_seconds = 1;
  random_write_iops = 1;
  random_read_iops = 1;
  package_url = [];
  startup_command = [];
  git_clone_url = [];
  untar_url = [];
  disabled_phases = [];
}

-- A command to create files.
abbrev creates_files : Command ℕ
creates_files = record {
  asked = record {
    phase = Phase.create;
    percent = 10;
    duration = 30;
    rate = 1;
    read_rate = 0;
    test_name = codes "t";
    file_size = 1;
    package_url = [];
    startup_command = [];
    git_clone_url = [];
    untar_url = [];
    force_cleanup = false;
  };
  prefix = codes "/p";
}

-- The agent registers and receives the command; then its work runs.
abbrev until_ready : List (Commands.Event ℕ)
until_ready =
    welcomes (codes "a") (codes "/p") plain
    ∷ commands creates_files
    ∷ loop_goes_on (λ l. l)
    ∷ loop_goes_on (λ l. l)
    ∷ []

abbrev until_working : List (Commands.Event ℕ)
until_working = until_ready ++ (loop_goes_on (λ l. l) ∷ loop_goes_on (λ l. l) ∷ [])

abbrev at_ready : Agent ℕ
at_ready = Commands.run_events until_ready (new_agent plain)

abbrev after_stop : Agent ℕ
after_stop =
    Commands.run_events (loop_goes_on (λ l. l) ∷ [])
      (Commands.step (stops true) (Commands.run_events until_working (new_agent plain)))

stopped_work_unreported_example :
    (contains 0 after_stop.cancelled ≡ true) × (contains 0 after_stop.reported ≡ false)
unfolding Commands.run_events new_agent list_beq
stopped_work_unreported_example =
    stopped_work_unreported plain until_working (loop_goes_on (λ l. l) ∷ []) 0 creates_files true
      refl refl

stop_before_work_lost_example :
    ((Commands.run_events (stop_and_work (λ l. l)) at_ready).sent ≡ (
      ((at_ready.sent
          ++ (status_of at_ready.client_id (codes "stopped") Phase.stopped 0 (codes "cleaned up") 0
              ∷ []))
        ++ (status_of at_ready.client_id
              (codes "running")
              Phase.create
              10
              (codes "executing")
              (count (clear at_ready.ledger))
            ∷ []))
      ++ (status_of at_ready.client_id
            (codes "idle")
            Phase.create
            10
            (codes "step done")
            (count (clear at_ready.ledger))
          ∷ [])))
    × ((Commands.run_events (stop_and_work (λ l. l)) at_ready).reported
        ≡ at_ready.contexts ∷ at_ready.reported)
    × ((Commands.run_events (stop_and_work (λ l. l)) at_ready).cleanups
        ≡ at_ready.cleanups ++ ((at_ready.prefix, at_ready.config.test_name) ∷ []))
unfolding Commands.run_events new_agent list_beq
stop_before_work_lost_example =
    stop_before_work_lost (λ l. l) creates_files at_ready refl refl refl refl refl refl
