-- ===== src/Client/Agent/Commands/Race.antt =====
-- A stop that comes while commandLoop is about to start the work: internal/client/agent.go.
use home_bench.Base.{
  ℕ, ◌≡◌, true, false, List, [], ◌∷◌, ◌++◌, none, Text, ◌==◌, nat_eq, list_eq, contains, arith,
  codes,
}
use home_bench.Protocol.Phase.{Phase}
use home_bench.Client.Ledger.{FileLedger, clear, count}
use home_bench.Client.Agent.Commands.{
  Command, StatusMsg, reading, ready, Agent, send_status, stop_work, clean_up, session_step,
  begin_work, report_idle, loop_step, Event, stops, session_goes_on, loop_goes_on, read_message,
  read_from, step, run_events,
}

abbrev pub status_of : Text → Text → Phase → ℕ → Text → ℕ → StatusMsg
status_of id status phase percent detail files = record {
  client_id = id;
  status = status;
  phase = phase;
  percent = percent;
  detail = detail;
  files = files;
}

module _ {F : Type 0} where
  -- The stop and its end, and then the work from its context on.
  abbrev pub stop_and_work : (FileLedger → FileLedger) → List (Event F)
  stop_and_work work =
      stops true
      ∷ session_goes_on
      ∷ session_goes_on
      ∷ loop_goes_on work
      ∷ loop_goes_on work
      ∷ loop_goes_on work
      ∷ loop_goes_on work
      ∷ []

  -- If the session reads a stop after commandLoop has cancelled the work before a command and before it
  -- has noted the context of the new one, the stop cancels nothing: the files are removed and "stopped" is sent,
  -- and then the command's work runs to its end and is reported as "running" and "idle".
  pub stop_before_work_lost :
      (work : FileLedger → FileLedger) (cmd : Command F) (a : Agent F)
      → a.session ≡ reading
      → a.loop ≡ ready cmd
      → a.worker ≡ true
      → a.run_cancel ≡ none
      → (a.client_id == []) ≡ false
      → contains a.contexts a.cancelled ≡ false
      → ((run_events (stop_and_work work) a).sent ≡ (
          ((a.sent
              ++ (status_of a.client_id (codes "stopped") Phase.stopped 0 (codes "cleaned up") 0
                  ∷ []))
            ++ (status_of a.client_id
                  (codes "running")
                  cmd.asked.phase
                  cmd.asked.percent
                  (codes "executing")
                  (count (clear a.ledger))
                ∷ []))
          ++ (status_of a.client_id
                (codes "idle")
                cmd.asked.phase
                cmd.asked.percent
                (codes "step done")
                (count (work (clear a.ledger)))
              ∷ [])))
        × ((run_events (stop_and_work work) a).reported ≡ a.contexts ∷ a.reported)
        × ((run_events (stop_and_work work) a).cleanups
            ≡ a.cleanups ++ ((a.prefix, a.config.test_name) ∷ []))
  unfolding run_events step read_from read_message stop_work session_step clean_up send_status
      loop_step begin_work report_idle
  stop_before_work_lost work cmd a s l w r i c = (
    ground (arith, s, l, w, r, i, c),
    ground (arith, s, l, w, r, i, c),
    ground (arith, s, l, w, r, i, c),
  )
