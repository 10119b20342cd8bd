-- ===== src/Controller/Orchestrator/Run/Wait.antt =====
-- waitClientsIdle (internal/controller/orchestrator.go): what it reads at each tick, and when it
-- returns. The events are what its select receives; the three times of a tick are the three reads
-- of the clock.
use home_bench.Base.{
  ℕ, ◌+◌, ◌*◌, ◌≤◌, ◌≡◌, ◌≢◌, refl, ap, Bool, true, false, not, ◌&&◌, ◌||◌, List, [], ◌∷◌, Option,
  none, some, Text, codes, arith, ◌==◌, nat_eq, list_eq, if◌then◌else◌, eq_iff, list_beq, length,
  lookup, ltb,
}
use home_bench.Protocol.Interval.{second}
use home_bench.Controller.Registry.{Registry, statuses}

pub data WaitEvent : Type 0 where
  context_done : WaitEvent
  tick : ℕ → ℕ → ℕ → Registry → WaitEvent

-- `waiting`: no event is left, and it has not returned.
pub data Waited : Type 0 where
  interrupted timed_out all_idle waiting : Waited

-- The variables of one tick.
pub record Scan : Type 0 where
  pub idle : Bool
  pub any_running : Bool
  pub saw_running : Bool
  pub seen : ℕ

-- What the status of one client adds, where it has one.
observe : Option Text → Scan → Scan
observe none v = v
observe (some s) v =
    if s == codes "running"
    then record { idle = false; any_running = true; saw_running = true; seen = v.seen + 1 }
    else if s == codes "idle"
    then record v { seen = v.seen + 1 }
    else record v { seen = v.seen + 1; idle = false }

-- The loop over the wanted clients.
scan : List Text → List (Text × Text) → Scan → Scan
scan [] st v = v
scan (id ∷ want) st v = scan want st (observe (lookup id st) v)

grace_period : ℕ
grace_period = 1500000000

-- Whether a tick that has read everything returns.
settled : ℕ → ℕ → ℕ → Scan → Bool
unfolding grace_period
settled grace later latest v =
    (v.saw_running && v.idle && not v.any_running)
    || (v.idle
        && not v.any_running
        && ltb grace later
        && (v.saw_running || ltb (grace + 2 * second) latest))

-- The loop of waitClientsIdle, for the frozen ids and the frozen set.
unfoldable pub wait_loop : List Text → List Text → ℕ → ℕ → Bool → List WaitEvent → Waited
unfolding scan observe settled
wait_loop ids want deadline grace saw [] = waiting
wait_loop ids want deadline grace saw (context_done ∷ events) = interrupted
wait_loop ids want deadline grace saw (tick now later latest r ∷ events) =
    let v =
      scan want (statuses ids r)
        (record { idle = true; any_running = false; saw_running = saw; seen = 0 }) in
    let rest = wait_loop ids want deadline grace v.saw_running events in
    if ltb deadline now
    then timed_out
    else if ltb v.seen (length want)
    then rest
    else if settled grace later latest v
    then all_idle
    else rest

-- waitClientsIdle, from the times of its two clock reads at the start.
unfoldable pub wait_clients_idle : List Text → List Text → ℕ → ℕ → ℕ → List WaitEvent → Waited
unfolding grace_period
wait_clients_idle ids want timeout started graced events =
    wait_loop ids want (started + timeout) (graced + grace_period) false events

abbrev pub is_idle : Option Text → Bool
is_idle none = false
is_idle (some s) = s == codes "idle"

-- All of the clients are listed as idle.
abbrev pub every_idle : List Text → List (Text × Text) → Bool
every_idle [] st = true
every_idle (id ∷ want) st = is_idle (lookup id st) && every_idle want st

-- At some tick all of the clients were idle.
abbrev pub idle_at_some_tick : List Text → List Text → List WaitEvent → Bool
idle_at_some_tick ids want [] = false
idle_at_some_tick ids want (context_done ∷ events) = idle_at_some_tick ids want events
idle_at_some_tick ids want (tick now later latest r ∷ events) =
    every_idle want (statuses ids r) || idle_at_some_tick ids want events

-- A tick comes after the deadline, or the context is done.
abbrev pub is_over : ℕ → List WaitEvent → Bool
is_over deadline [] = false
is_over deadline (context_done ∷ events) = true
is_over deadline (tick now later latest r ∷ events) = ltb deadline now || is_over deadline events

seen-observe : (o : Option Text) (v : Scan) → (observe o v).seen ≤ v.seen + 1
unfolding observe
seen-observe none v = omega arith
seen-observe (some s) v = ground arith

observe_idle :
    (o : Option Text) (v : Scan)
    → (observe o v).seen ≡ v.seen + 1
    → (observe o v).idle ≡ true
    → (v.idle ≡ true) × (o ≡ some (codes "idle"))
unfolding observe
observe_idle none v h k = ground arith
observe_idle (some s) v h k = ground (arith, eq_iff s (codes "idle"))

seen-scan :
    (want : List Text) (st : List (Text × Text)) (v : Scan)
    → (scan want st v).seen ≤ v.seen + length want
unfolding scan
seen-scan [] st v = omega arith
seen-scan (id ∷ want) st v =
    omega (arith, seen-scan want st (observe (lookup id st) v), seen-observe (lookup id st) v)

scan_idle :
    (want : List Text) (st : List (Text × Text)) (v : Scan)
    → (scan want st v).seen ≡ v.seen + length want
    → (scan want st v).idle ≡ true
    → (v.idle ≡ true) × (every_idle want st ≡ true)
unfolding scan list_beq
scan_idle [] st v h k = (k, refl)
scan_idle (id ∷ want) st v h k =
    let o : Option Text = lookup id st in
    let most = seen-scan want st (observe o v) in
    let one = seen-observe o v in
    let (i, e) = scan_idle want st (observe o v) (omega arith) k in
    let (i', e') = observe_idle o v (omega arith) i in (i', rw (ap is_idle e', e) refl)

wait_loop_lem :
    (ids want : List Text) (deadline grace : ℕ) (saw : Bool) (events : List WaitEvent)
    → wait_loop ids want deadline grace saw events ≡ all_idle
    → idle_at_some_tick ids want events ≡ true
unfolding wait_loop settled
wait_loop_lem ids want deadline grace saw [] h = ground arith
wait_loop_lem ids want deadline grace saw (context_done ∷ events) h = ground arith
wait_loop_lem ids want deadline grace saw (tick now later latest r ∷ events) h =
    let v : Scan = record { idle = true; any_running = false; saw_running = saw; seen = 0 } in
    let v' : Scan = scan want (statuses ids r) v in
    ground (
      arith,
      scan_idle want (statuses ids r) v,
      seen-scan want (statuses ids r) v,
      wait_loop_lem ids want deadline grace v'.saw_running events,
    )

wait_loop_ends :
    (ids want : List Text) (deadline grace : ℕ) (saw : Bool) (events : List WaitEvent)
    → is_over deadline events ≡ true
    → wait_loop ids want deadline grace saw events ≢ waiting
unfolding wait_loop
wait_loop_ends ids want deadline grace saw [] h = ground arith
wait_loop_ends ids want deadline grace saw (context_done ∷ events) h = ground arith
wait_loop_ends ids want deadline grace saw (tick now later latest r ∷ events) h =
    let v : Scan = record { idle = true; any_running = false; saw_running = saw; seen = 0 } in
    ground (
      arith,
      wait_loop_ends ids want deadline grace (scan want (statuses ids r) v).saw_running events,
    )

-- Where waitClientsIdle returns because the clients are idle, every client of the run was
-- registered with the status "idle" at one and the same tick.
wait_clients_idle_lem :
    (ids want : List Text) (timeout started graced : ℕ) (events : List WaitEvent)
    → wait_clients_idle ids want timeout started graced events ≡ all_idle
    → idle_at_some_tick ids want events ≡ true
unfolding wait_clients_idle
wait_clients_idle_lem ids want timeout started graced events h =
    wait_loop_lem ids want (started + timeout) (graced + grace_period) false events h

-- waitClientsIdle returns at the latest at the first tick after its timeout, and when its context
-- is done.
pub wait_clients_idle_ends :
    (ids want : List Text) (timeout started graced : ℕ) (events : List WaitEvent)
    → is_over (started + timeout) events ≡ true
    → wait_clients_idle ids want timeout started graced events ≢ waiting
unfolding wait_clients_idle
wait_clients_idle_ends ids want timeout started graced events h =
    wait_loop_ends ids want (started + timeout) (graced + grace_period) false events h
