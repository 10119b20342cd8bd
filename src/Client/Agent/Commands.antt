-- ===== src/Client/Agent/Commands.antt =====
-- internal/client/agent.go: the messages of a session and commandLoop, two goroutines that share the
-- agent, the channel cmdCh and the contexts of the work. An event is what one of them does between two
-- accesses of those, so that a list of events is an interleaving. The connection is there throughout.
pub mod Tracking
pub mod Stopping
pub mod Race
use home_bench.Base.{
  ℕ, ◌+◌, Bool, true, false, List, [], ◌∷◌, ◌++◌, Option, none, some, Text, codes, ◌==◌, nat_eq,
  list_eq, if◌then◌else◌, length, drop, ltb, contains,
}
use home_bench.Protocol.Phase.{Phase}
use home_bench.Protocol.Prefix.{select_prefix}
use home_bench.Protocol.Config.{Config}
use home_bench.Controller.Orchestrator.State.{PhaseCommand}
use home_bench.Client.Ledger.{FileLedger, new_file_ledger, clear, count}

-- The capacity of cmdCh.
abbrev pub command_queue : ℕ
command_queue = 8

-- A command with its Prefix, which the controller leaves empty.
pub record Command (F : Type 0) : Type 0 where
  pub asked : PhaseCommand F
  pub prefix : Text

pub record StatusMsg : Type 0 where
  pub client_id : Text
  pub status : Text
  pub phase : Phase
  pub percent : ℕ
  pub detail : Text
  pub files : ℕ

-- Where the session stands: it reads the next message, it comes to the receive that makes room for a
-- command or to its second send, or it has cancelled the work for a stop, with that Cleanup, or has
-- cleaned up.
pub data SessionAt (F : Type 0) : Type 0 where
  reading : SessionAt F
  making_room resending : Command F → SessionAt F
  stopping : Bool → SessionAt F
  cleaned : SessionAt F

-- Where commandLoop stands: it waits; it has received a command; it has cancelled the work before it;
-- the work has a context and a worker; it runs in that context; or it has ended without being cancelled.
pub data LoopAt (F : Type 0) : Type 0 where
  waiting : LoopAt F
  received ready : Command F → LoopAt F
  begun working reporting : ℕ → Command F → LoopAt F

-- The fields of Agent that the two share. A work context is a number, and `contexts` how many there
-- have been. The lists at the end are no variables of the source: the statuses that were sent, the
-- cleanups with their prefix and test, and the contexts of the work that was reported as done.
pub record Agent (F : Type 0) : Type 0 where
  pub client_id : Text
  pub prefix : Text
  pub config : Config F
  pub ledger : FileLedger
  pub worker : Bool  -- there is one
  pub cmd_ch : List (Command F)
  pub run_cancel : Option ℕ  -- the context that it cancels
  pub session : SessionAt F
  pub loop : LoopAt F
  pub contexts : ℕ
  pub cancelled : List ℕ
  pub sent : List StatusMsg
  pub cleanups : List (Text × Text)
  pub reported : List ℕ

module _ {F : Type 0} where
  -- sendStatus
  unfoldable pub send_status : Text → Phase → ℕ → Text → ℕ → Agent F → Agent F
  send_status status phase percent detail files a =
      let msg : StatusMsg = record {
        client_id = a.client_id;
        status = status;
        phase = phase;
        percent = percent;
        detail = detail;
        files = files;
      } in
      if a.client_id == [] then a else record a { sent = a.sent ++ (msg ∷ []) }

  -- stopWork
  unfoldable pub stop_work : Option ℕ → Agent F → Agent F
  stop_work none a = a
  stop_work (some n) a = record a { run_cancel = none; cancelled = n ∷ a.cancelled }

  -- "welcome", without the interval of the metrics
  unfoldable pub take_welcome : Text → Text → Config F → Agent F → Agent F
  unfolding send_status
  take_welcome id prefix cfg a =
      send_status (codes "registered") Phase.idle 0 (codes "ready") (count a.ledger)
        (record a { client_id = id; prefix = prefix; config = cfg; worker = true })

  -- "config"
  unfoldable pub take_config : Text → Config F → Agent F → Agent F
  take_config hostname cfg a = record a {
    config = cfg;
    prefix = select_prefix hostname cfg.prefixes;
    worker = true;
  }

  -- "command", with the prefix of the client where it has one, to its first send
  unfoldable pub take_command : Command F → Agent F → Agent F
  take_command cmd a =
      let own = if a.prefix == [] then cmd else record cmd { prefix = a.prefix } in
      if ltb (length a.cmd_ch) command_queue
      then record a { cmd_ch = a.cmd_ch ++ (own ∷ []) }
      else record a { session = making_room own }

  -- Cleanup of a stop, where it is asked for and there is a worker.
  unfoldable pub clean_up : Bool → Agent F → Agent F
  clean_up asked a =
      if asked
      then if a.worker
        then record a {
          ledger = clear a.ledger;
          cleanups = a.cleanups ++ ((a.prefix, a.config.test_name) ∷ []);
        }
        else a
      else a

  -- What the session does next, in the middle of a message. The second send blocks while the channel
  -- is full.
  unfoldable pub session_step : SessionAt F → Agent F → Agent F
  unfolding clean_up send_status
  session_step reading a = a
  session_step (making_room cmd) a = record a { cmd_ch = drop 1 a.cmd_ch; session = resending cmd }
  session_step (resending cmd) a =
      if ltb (length a.cmd_ch) command_queue
      then record a { cmd_ch = a.cmd_ch ++ (cmd ∷ []); session = reading }
      else a
  session_step (stopping asked) a = record (clean_up asked a) { session = cleaned }
  session_step cleaned a =
      send_status (codes "stopped") Phase.stopped 0 (codes "cleaned up") 0
        (record a { session = reading })

  -- commandLoop from where it waits: the receive.
  unfoldable pub receive_command : List (Command F) → Agent F → Agent F
  receive_command [] a = a
  receive_command (cmd ∷ cmds) a = record a { cmd_ch = cmds; loop = received cmd }

  -- The work's context, and the worker under the same lock; without one, the context is cancelled.
  unfoldable pub begin_work : Command F → Agent F → Agent F
  begin_work cmd a =
      let n = a.contexts in
      let started = record a { contexts = n + 1; run_cancel = some n } in
      if a.worker
      then record started { loop = begun n cmd }
      else record started { cancelled = n ∷ a.cancelled; loop = waiting }

  unfoldable pub report_idle : ℕ → Command F → Agent F → Agent F
  unfolding send_status
  report_idle n cmd a =
      send_status (codes "idle") cmd.asked.phase cmd.asked.percent (codes "step done")
        (count a.ledger) (record a { loop = waiting; reported = n ∷ a.reported })

  -- What commandLoop does next; `work` is what Worker.Run does to the ledger.
  unfoldable pub loop_step : (FileLedger → FileLedger) → LoopAt F → Agent F → Agent F
  unfolding receive_command stop_work begin_work send_status report_idle contains
  loop_step work waiting a = receive_command a.cmd_ch a
  loop_step work (received cmd) a = record (stop_work a.run_cancel a) { loop = ready cmd }
  loop_step work (ready cmd) a = begin_work cmd a
  loop_step work (begun n cmd) a =
      send_status (codes "running") cmd.asked.phase cmd.asked.percent (codes "executing")
        (count a.ledger) (record a { loop = working n cmd })
  loop_step work (working n cmd) a =
      let done = record a { ledger = work a.ledger } in
      if contains n a.cancelled
      then record done { loop = waiting }
      else record done { loop = reporting n cmd }
  loop_step work (reporting n cmd) a = report_idle n cmd a

-- A message, of which the host name is the agent's; and a step of each goroutine.
pub data Event (F : Type 0) : Type 0 where
  welcomes : Text → Text → Config F → Event F
  configures : Text → Config F → Event F
  commands : Command F → Event F
  stops : Bool → Event F
  session_goes_on : Event F
  loop_goes_on : (FileLedger → FileLedger) → Event F

module _ {F : Type 0} where
  -- A message that the session reads.
  unfoldable pub read_message : Event F → Agent F → Agent F
  unfolding take_welcome take_config take_command stop_work
  read_message (welcomes id prefix cfg) a = take_welcome id prefix cfg a
  read_message (configures hostname cfg) a = take_config hostname cfg a
  read_message (commands cmd) a = take_command cmd a
  read_message (stops asked) a = record (stop_work a.run_cancel a) { session = stopping asked }
  read_message _ a = a

  -- Messages wait while the session is in the middle of one.
  unfoldable pub read_from : SessionAt F → Event F → Agent F → Agent F
  unfolding read_message
  read_from reading e a = read_message e a
  read_from _ e a = a

  unfoldable pub step : Event F → Agent F → Agent F
  unfolding read_from session_step loop_step
  step session_goes_on a = session_step a.session a
  step (loop_goes_on work) a = loop_step work a.loop a
  step e a = read_from a.session e a

  unfoldable pub run_events : List (Event F) → Agent F → Agent F
  unfolding step
  run_events [] a = a
  run_events (e ∷ es) a = run_events es (step e a)

  -- A new agent, at the start of a session.
  unfoldable pub new_agent : Config F → Agent F
  new_agent cfg = record {
    client_id = [];
    prefix = [];
    config = cfg;
    ledger = new_file_ledger;
    worker = false;
    cmd_ch = [];
    run_cancel = none;
    session = reading;
    loop = waiting;
    contexts = 0;
    cancelled = [];
    sent = [];
    cleanups = [];
    reported = [];
  }
