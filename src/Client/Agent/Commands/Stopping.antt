-- ===== src/Client/Agent/Commands/Stopping.antt =====
-- Work that a stop has cancelled, and its reports: internal/client/agent.go.
use mathlib.Core.Path.{subst}
use home_bench.Base.{
  ℕ, ◌<◌, ◌≡◌, refl, sym, ap, inl, inr, Bool, true, false, List, [], ◌∷◌, Option, none, some, ◌==◌,
  nat_eq, list_eq, eq_iff, if_elim, Bool-cases, contains, arith,
}
use home_bench.Protocol.Config.{Config}
use home_bench.Client.Ledger.{FileLedger}
use home_bench.Client.Agent.Commands.{
  Command, SessionAt, reading, making_room, resending, stopping, cleaned, LoopAt, waiting, received,
  ready, begun, working, reporting, Agent, stop_work, take_welcome, take_config, receive_command,
  begin_work, report_idle, loop_step, Event, welcomes, configures, commands, stops, session_goes_on,
  loop_goes_on, read_message, read_from, step, run_events, new_agent,
}
use home_bench.Client.Agent.Commands.Tracking.{
  Work, work_of, Tracked, IsTracked, run_events-IsTracked, work-send_status, work-session_step,
  work-take_command,
}

other_context :
    (n m : ℕ) (ms : List ℕ) → contains n ms ≡ true → contains m ms ≡ false → (m == n) ≡ false
other_context n m ms c d = elim (Bool-cases (m == n)) [
  | inl same ↦ absurd (ground (arith, c, d, ap (λ k. contains k ms) ((eq_iff m n).0 same)))
  | inr other ↦ other
]

module _ {F : Type 0} where
  -- The work of a context is cancelled and will not be reported.
  abbrev NotReporting : ℕ → LoopAt F → Type 0
  NotReporting n (reporting m cmd) = (m == n) ≡ false
  NotReporting n _ = Unit

  record IsQuiet (n : ℕ) (w : Work F) : Type 0 where
    cancelled : contains n w.cancelled ≡ true
    begun : n < w.contexts
    unreported : contains n w.reported ≡ false
    not_reporting : NotReporting n w.loop

  -- Cancelled work stays unreported.
  stop-IsQuiet :
      (n : ℕ) (c : Option ℕ) (a : Agent F)
      → IsQuiet n (work_of a)
      → IsQuiet n (work_of (stop_work c a))
  unfolding stop_work contains
  stop-IsQuiet n none a v = v
  stop-IsQuiet n (some m) a v = record {
    cancelled = ground (arith, v.cancelled);
    begun = v.begun;
    unreported = v.unreported;
    not_reporting = v.not_reporting;
  }

  Quiet-like : (n : ℕ) (w w' : Work F) → w ≡ w' → IsQuiet n w' → IsQuiet n w
  Quiet-like n w w' e v = subst (IsQuiet n) (sym e) v

  receive-IsQuiet :
      (n : ℕ) (cmds : List (Command F)) (a : Agent F)
      → IsQuiet n (work_of a)
      → IsQuiet n (work_of (receive_command cmds a))
  unfolding receive_command
  receive-IsQuiet n [] a v = v
  receive-IsQuiet n (cmd ∷ cmds) a v = record {
    cancelled = v.cancelled;
    begun = v.begun;
    unreported = v.unreported;
    not_reporting = tt;
  }

  loop_step-IsQuiet :
      (n : ℕ) (work : FileLedger → FileLedger) (at : LoopAt F) (a : Agent F)
      → NotReporting n at
      → IsQuiet n (work_of a)
      → IsQuiet n (work_of (loop_step work at a))
  unfolding loop_step receive_command begin_work report_idle contains
  loop_step-IsQuiet n work waiting a w v = receive-IsQuiet n a.cmd_ch a v
  loop_step-IsQuiet n work (received cmd) a w v =
      let q = stop-IsQuiet n a.run_cancel a v in
      record {
        cancelled = q.cancelled;
        begun = q.begun;
        unreported = q.unreported;
        not_reporting = tt;
      }
  loop_step-IsQuiet n work (ready cmd) a w v =
      if_elim (λ (x : Agent F). IsQuiet n (work_of x)) a.worker
        (λ _. record {
          cancelled = v.cancelled;
          begun = omega (arith, v.begun);
          unreported = v.unreported;
          not_reporting = tt;
        })
        (λ _. record {
          cancelled = ground (arith, v.cancelled);
          begun = omega (arith, v.begun);
          unreported = v.unreported;
          not_reporting = tt;
        })
  loop_step-IsQuiet n work (begun m cmd) a w v =
      Quiet-like n _ _ (work-send_status _ _ _ _ _ (record a { loop = working m cmd })) (record {
        cancelled = v.cancelled;
        begun = v.begun;
        unreported = v.unreported;
        not_reporting = tt;
      })
  loop_step-IsQuiet n work (working m cmd) a w v =
      if_elim (λ (x : Agent F). IsQuiet n (work_of x)) (contains m a.cancelled)
        (λ _. record {
          cancelled = v.cancelled;
          begun = v.begun;
          unreported = v.unreported;
          not_reporting = tt;
        })
        (λ running. record {
          cancelled = v.cancelled;
          begun = v.begun;
          unreported = v.unreported;
          not_reporting = other_context n m a.cancelled v.cancelled running;
        })
  loop_step-IsQuiet n work (reporting m cmd) a w v =
      Quiet-like n _ _
        (work-send_status _ _ _ _ _ (record a { loop = waiting; reported = m ∷ a.reported }))
        (record {
          cancelled = v.cancelled;
          begun = v.begun;
          unreported = ground (arith, w, v.unreported);
          not_reporting = tt;
        })

  read_message-IsQuiet :
      (n : ℕ) (e : Event F) (a : Agent F)
      → IsQuiet n (work_of a)
      → IsQuiet n (work_of (read_message e a))
  unfolding read_message take_welcome take_config
  read_message-IsQuiet n (welcomes id prefix cfg) a v =
      Quiet-like n _ _
        (work-send_status _ _ _ _ _
          (record a { client_id = id; prefix = prefix; config = cfg; worker = true }))
        v
  read_message-IsQuiet n (configures host cfg) a v = v
  read_message-IsQuiet n (commands cmd) a v = Quiet-like n _ _ (work-take_command cmd a) v
  read_message-IsQuiet n (stops asked) a v = stop-IsQuiet n a.run_cancel a v
  read_message-IsQuiet n session_goes_on a v = v
  read_message-IsQuiet n (loop_goes_on work) a v = v

  read_from-IsQuiet :
      (n : ℕ) (at : SessionAt F) (e : Event F) (a : Agent F)
      → IsQuiet n (work_of a)
      → IsQuiet n (work_of (read_from at e a))
  unfolding read_from
  read_from-IsQuiet n reading e a v = read_message-IsQuiet n e a v
  read_from-IsQuiet n (making_room cmd) e a v = v
  read_from-IsQuiet n (resending cmd) e a v = v
  read_from-IsQuiet n (stopping asked) e a v = v
  read_from-IsQuiet n cleaned e a v = v

  step-IsQuiet :
      (n : ℕ) (e : Event F) (a : Agent F) → IsQuiet n (work_of a) → IsQuiet n (work_of (step e a))
  unfolding step
  step-IsQuiet n session_goes_on a v = Quiet-like n _ _ (work-session_step a.session a) v
  step-IsQuiet n (loop_goes_on work) a v = loop_step-IsQuiet n work a.loop a v.not_reporting v
  step-IsQuiet n (welcomes id prefix cfg) a v =
      read_from-IsQuiet n a.session (welcomes id prefix cfg) a v
  step-IsQuiet n (configures host cfg) a v = read_from-IsQuiet n a.session (configures host cfg) a v
  step-IsQuiet n (commands cmd) a v = read_from-IsQuiet n a.session (commands cmd) a v
  step-IsQuiet n (stops asked) a v = read_from-IsQuiet n a.session (stops asked) a v

  run_events-IsQuiet :
      (n : ℕ) (es : List (Event F)) (a : Agent F)
      → IsQuiet n (work_of a)
      → IsQuiet n (work_of (run_events es a))
  unfolding run_events
  run_events-IsQuiet n [] a v = v
  run_events-IsQuiet n (e ∷ es) a v = run_events-IsQuiet n es (step e a) (step-IsQuiet n e a v)

  -- A stop that the session reads while work runs.
  stopped-IsQuiet :
      (n : ℕ) (cmd : Command F) (asked : Bool) (c : Option ℕ) (a : Agent F)
      → a.run_cancel ≡ c
      → a.loop ≡ working n cmd
      → Tracked (working n cmd) (work_of a)
      → IsQuiet n (work_of (record (stop_work c a) { session = stopping asked }))
  unfolding stop_work contains
  stopped-IsQuiet n cmd asked none a e at (lt, inl now, un) = absurd (ground (arith, e, now))
  stopped-IsQuiet n cmd asked none a e at (lt, inr was, un) = record {
    cancelled = was;
    begun = lt;
    unreported = un;
    not_reporting = subst (NotReporting n) (sym at) tt;
  }
  stopped-IsQuiet n cmd asked (some m) a e at (lt, c, un) = record {
    cancelled = ground (arith, e, c);
    begun = lt;
    unreported = un;
    not_reporting = subst (NotReporting n) (sym at) tt;
  }

  -- However the session and commandLoop interleave: once the session has read a stop while the work of a
  -- context runs, and whatever both goroutines do afterwards, that context is cancelled and its work is
  -- never reported as done.
  pub stopped_work_unreported :
      (cfg : Config F) (es later : List (Event F)) (n : ℕ) (cmd : Command F) (asked : Bool)
      → (run_events es (new_agent cfg)).session ≡ reading
      → (run_events es (new_agent cfg)).loop ≡ working n cmd
      → (contains n
            (run_events later (step (stops asked) (run_events es (new_agent cfg)))).cancelled
          ≡ true)
        × (contains n
              (run_events later (step (stops asked) (run_events es (new_agent cfg)))).reported
            ≡ false)
  unfolding step read_from read_message
  stopped_work_unreported cfg es later n cmd asked here at =
      let a = run_events es (new_agent cfg) in
      let v : IsTracked (work_of a) = run_events-IsTracked cfg es in
      let q : IsQuiet n (work_of (step (stops asked) a)) =
        subst (λ (s : SessionAt F). IsQuiet n (work_of (read_from s (stops asked) a))) (sym here)
          (stopped-IsQuiet n cmd asked a.run_cancel a refl at
            (subst (λ l. Tracked l (work_of a)) at v.tracked)) in
      let r = run_events-IsQuiet n later (step (stops asked) a) q in (r.cancelled, r.unreported)
