-- ===== src/Client/Agent/Commands/Tracking.antt =====
-- The contexts of the work that commandLoop starts: internal/client/agent.go.
use mathlib.Core.Path.{subst}
use home_bench.Base.{
  ℕ, ◌+◌, ◌<◌, ◌≡◌, refl, sym, ◌⊎◌, inl, inr, Bool, true, false, List, [], ◌∷◌, Option, none, some,
  Text, ◌==◌, nat_eq, list_eq, if_elim, contains, All, arith,
}
use home_bench.Protocol.Phase.{Phase}
use home_bench.Protocol.Config.{Config}
use home_bench.Client.Ledger.{FileLedger}
use home_bench.Client.Agent.Commands.{
  Command, SessionAt, reading, making_room, resending, stopping, cleaned, LoopAt, waiting, received,
  ready, begun, working, reporting, Agent, send_status, stop_work, take_welcome, take_config,
  take_command, clean_up, session_step, receive_command, begin_work, report_idle, loop_step, Event,
  welcomes, configures, commands, stops, session_goes_on, loop_goes_on, read_message, read_from,
  step, run_events, new_agent,
}

-- What the contexts of the work depend on.
pub record Work (F : Type 0) : Type 0 where
  pub loop : LoopAt F
  pub run_cancel : Option ℕ
  pub contexts : ℕ
  pub cancelled : List ℕ
  pub reported : List ℕ

contains-fresh : (n : ℕ) (ms : List ℕ) → All (λ m. m < n) ms → contains n ms ≡ false
unfolding contains
contains-fresh n [] h = refl
contains-fresh n (m ∷ ms) h = ground (arith, h.0, contains-fresh n ms h.1)

All-later : (n : ℕ) (ms : List ℕ) → All (λ m. m < n) ms → All (λ m. m < n + 1) ms
All-later n [] h = tt
All-later n (m ∷ ms) h = (omega (arith, h.0), All-later n ms h.1)

module _ {F : Type 0} where
  abbrev pub work_of : Agent F → Work F
  work_of a = record {
    loop = a.loop;
    run_cancel = a.run_cancel;
    contexts = a.contexts;
    cancelled = a.cancelled;
    reported = a.reported;
  }

  -- A status changes nothing of it, nor does a message but for a stop.
  pub work-send_status :
      (s : Text) (p : Phase) (k : ℕ) (d : Text) (n : ℕ) (a : Agent F)
      → work_of (send_status s p k d n a) ≡ work_of a
  unfolding send_status
  work-send_status s p k d n a =
      if_elim (λ (x : Agent F). work_of x ≡ work_of a) (a.client_id == []) (λ _. refl) (λ _. refl)

  pub work-session_step : (at : SessionAt F) (a : Agent F) → work_of (session_step at a) ≡ work_of a
  unfolding session_step clean_up
  work-session_step reading a = refl
  work-session_step (making_room cmd) a = refl
  work-session_step (resending cmd) a = ground arith
  work-session_step (stopping asked) a = ground arith
  work-session_step cleaned a = work-send_status _ _ _ _ _ (record a { session = reading })

  pub work-take_command : (cmd : Command F) (a : Agent F) → work_of (take_command cmd a) ≡ work_of a
  unfolding take_command
  work-take_command cmd a = ground arith

  -- The work under way can be cancelled or is, and has not been reported.
  abbrev pub Tracked : LoopAt F → Work F → Type 0
  Tracked (begun n cmd) w =
      (n < w.contexts)
      × ((w.run_cancel ≡ some n) ⊎ (contains n w.cancelled ≡ true))
      × (contains n w.reported ≡ false)
  Tracked (working n cmd) w =
      (n < w.contexts)
      × ((w.run_cancel ≡ some n) ⊎ (contains n w.cancelled ≡ true))
      × (contains n w.reported ≡ false)
  Tracked (reporting n cmd) w = n < w.contexts
  Tracked _ w = Unit

  pub record IsTracked (w : Work F) : Type 0 where
    pub tracked : Tracked w.loop w
    pub past : All (λ n. n < w.contexts) w.reported

  stop-Tracked :
      (at : LoopAt F) (c : Option ℕ) (a : Agent F)
      → a.run_cancel ≡ c
      → Tracked at (work_of a)
      → Tracked at (work_of (stop_work c a))
  unfolding stop_work contains
  stop-Tracked at none a e v = v
  stop-Tracked (begun n cmd) (some m) a e (lt, inl now, un) = (lt, inr (ground (arith, e, now)), un)
  stop-Tracked (begun n cmd) (some m) a e (lt, inr was, un) = (lt, inr (ground (arith, was)), un)
  stop-Tracked (working n cmd) (some m) a e (lt, inl now, un) =
      (lt, inr (ground (arith, e, now)), un)
  stop-Tracked (working n cmd) (some m) a e (lt, inr was, un) = (lt, inr (ground (arith, was)), un)
  stop-Tracked (reporting n cmd) (some m) a e v = v
  stop-Tracked waiting (some m) a e v = tt
  stop-Tracked (received cmd) (some m) a e v = tt
  stop-Tracked (ready cmd) (some m) a e v = tt

  -- A step of the work keeps what is tracked.
  Tracked-like : (w w' : Work F) → w ≡ w' → IsTracked w' → IsTracked w
  Tracked-like w w' e v = subst IsTracked (sym e) v

  stop-past :
      (c : Option ℕ) (a : Agent F)
      → All (λ n. n < a.contexts) a.reported
      → All (λ n. n < (stop_work c a).contexts) (stop_work c a).reported
  unfolding stop_work
  stop-past none a h = h
  stop-past (some m) a h = h

  loop-stop : (c : Option ℕ) (a : Agent F) → (stop_work c a).loop ≡ a.loop
  unfolding stop_work
  loop-stop none a = refl
  loop-stop (some m) a = refl

  stop-IsTracked :
      (asked : Bool) (a : Agent F)
      → IsTracked (work_of a)
      → IsTracked (work_of (record (stop_work a.run_cancel a) { session = stopping asked }))
  stop-IsTracked asked a v = record {
    tracked =
        subst (λ at. Tracked at (work_of (stop_work a.run_cancel a)))
          (sym (loop-stop a.run_cancel a)) (stop-Tracked a.loop a.run_cancel a refl v.tracked);
    past = stop-past a.run_cancel a v.past;
  }

  receive-IsTracked :
      (cmds : List (Command F)) (a : Agent F)
      → IsTracked (work_of a)
      → IsTracked (work_of (receive_command cmds a))
  unfolding receive_command
  receive-IsTracked [] a v = v
  receive-IsTracked (cmd ∷ cmds) a v = record { tracked = tt; past = v.past }

  loop_step-IsTracked :
      (work : FileLedger → FileLedger) (at : LoopAt F) (a : Agent F)
      → a.loop ≡ at
      → Tracked at (work_of a)
      → IsTracked (work_of a)
      → IsTracked (work_of (loop_step work at a))
  unfolding loop_step receive_command begin_work report_idle
  loop_step-IsTracked work waiting a e w v = receive-IsTracked a.cmd_ch a v
  loop_step-IsTracked work (received cmd) a e w v = record {
    tracked = tt;
    past = stop-past a.run_cancel a v.past;
  }
  loop_step-IsTracked work (ready cmd) a e w v =
      if_elim (λ (x : Agent F). IsTracked (work_of x)) a.worker
        (λ _. record {
          tracked = (omega arith, inl refl, contains-fresh a.contexts a.reported v.past);
          past = All-later a.contexts a.reported v.past;
        })
        (λ _. record { tracked = tt; past = All-later a.contexts a.reported v.past })
  loop_step-IsTracked work (begun n cmd) a e w v =
      Tracked-like _ _ (work-send_status _ _ _ _ _ (record a { loop = working n cmd }))
        (record { tracked = w; past = v.past })
  loop_step-IsTracked work (working n cmd) a e w v =
      if_elim (λ (x : Agent F). IsTracked (work_of x)) (contains n a.cancelled)
        (λ _. record { tracked = tt; past = v.past }) (λ _. record { tracked = w.0; past = v.past })
  loop_step-IsTracked work (reporting n cmd) a e w v =
      Tracked-like _ _
        (work-send_status _ _ _ _ _ (record a { loop = waiting; reported = n ∷ a.reported }))
        (record { tracked = tt; past = (w, v.past) })

  read_message-IsTracked :
      (e : Event F) (a : Agent F) → IsTracked (work_of a) → IsTracked (work_of (read_message e a))
  unfolding read_message take_welcome take_config
  read_message-IsTracked (welcomes id prefix cfg) a v =
      Tracked-like _ _
        (work-send_status _ _ _ _ _
          (record a { client_id = id; prefix = prefix; config = cfg; worker = true }))
        v
  read_message-IsTracked (configures host cfg) a v = v
  read_message-IsTracked (commands cmd) a v = Tracked-like _ _ (work-take_command cmd a) v
  read_message-IsTracked (stops asked) a v = stop-IsTracked asked a v
  read_message-IsTracked session_goes_on a v = v
  read_message-IsTracked (loop_goes_on work) a v = v

  read_from-IsTracked :
      (at : SessionAt F) (e : Event F) (a : Agent F)
      → IsTracked (work_of a)
      → IsTracked (work_of (read_from at e a))
  unfolding read_from
  read_from-IsTracked reading e a v = read_message-IsTracked e a v
  read_from-IsTracked (making_room cmd) e a v = v
  read_from-IsTracked (resending cmd) e a v = v
  read_from-IsTracked (stopping asked) e a v = v
  read_from-IsTracked cleaned e a v = v

  step-IsTracked :
      (e : Event F) (a : Agent F) → IsTracked (work_of a) → IsTracked (work_of (step e a))
  unfolding step
  step-IsTracked session_goes_on a v = Tracked-like _ _ (work-session_step a.session a) v
  step-IsTracked (loop_goes_on work) a v = loop_step-IsTracked work a.loop a refl v.tracked v
  step-IsTracked (welcomes id prefix cfg) a v =
      read_from-IsTracked a.session (welcomes id prefix cfg) a v
  step-IsTracked (configures host cfg) a v = read_from-IsTracked a.session (configures host cfg) a v
  step-IsTracked (commands cmd) a v = read_from-IsTracked a.session (commands cmd) a v
  step-IsTracked (stops asked) a v = read_from-IsTracked a.session (stops asked) a v

  run_events-from :
      (es : List (Event F)) (a : Agent F)
      → IsTracked (work_of a)
      → IsTracked (work_of (run_events es a))
  unfolding run_events
  run_events-from [] a v = v
  run_events-from (e ∷ es) a v = run_events-from es (step e a) (step-IsTracked e a v)

  pub run_events-IsTracked :
      (cfg : Config F) (es : List (Event F)) → IsTracked (work_of (run_events es (new_agent cfg)))
  unfolding new_agent
  run_events-IsTracked cfg es =
      run_events-from es (new_agent cfg) (record { tracked = tt; past = tt })
