-- ===== src/Controller/Server/Refresh.antt =====
-- internal/controller/server.go: requestUI and the goroutine of flushUI. Each locked part is a step, and
-- so are the snapshot with its writes and the end of a sleep; times are in nanoseconds.
pub mod Spacing
pub mod Shown
use home_bench.Base.{
  ℕ, ◌+◌, ◌-◌, ◌*◌, Bool, true, false, not, List, [], ◌∷◌, Option, none, some, if◌then◌else◌, ltb,
}

-- 500 milliseconds
abbrev pub half_second : ℕ
half_second = 500 * 1000000

-- Where the goroutine of flushUI stands: there is none, it comes to the head of the loop, it takes a
-- snapshot, it comes to the end of the loop, or it sleeps from that time on.
pub data Flusher : Type 0 where
  absent at_head at_snapshot at_end : Flusher
  sleeping : ℕ → Flusher

-- The fields of Server with the goroutine. The last three are no variables of the source: how many
-- requests there were, how many the last snapshot came after, and when the pushes began, the last first.
pub record Refresh : Type 0 where
  pub pending : Bool
  pub flushing : Bool
  pub last_push : Option ℕ  -- none for the zero time
  pub flusher : Flusher
  pub requested : ℕ
  pub shown : ℕ
  pub pushes : List ℕ

abbrev pub new_refresh : Refresh
new_refresh = record {
  pending = false;
  flushing = false;
  last_push = none;
  flusher = absent;
  requested = 0;
  shown = 0;
  pushes = [];
}

-- `time.Since(s.lastUIPush) < 500*time.Millisecond`
unfoldable pub is_recent : ℕ → Option ℕ → Bool
is_recent now none = false
is_recent now (some at) = ltb (now - at) half_second

-- requestUI
unfoldable pub request_ui : ℕ → Refresh → Refresh
unfolding is_recent
request_ui now s =
    let asked = record s { pending = true; requested = s.requested + 1 } in
    if s.flushing
    then asked
    else if is_recent now s.last_push
    then asked
    else record asked { flushing = true; flusher = at_head }

-- The head of the loop of flushUI.
unfoldable pub flush_head : ℕ → Refresh → Refresh
flush_head now s =
    if not s.pending then record s { flushing = false; flusher = absent } else record s {
      pending = false;
      last_push = some now;
      flusher = at_snapshot;
      pushes = now ∷ s.pushes;
    }

-- The end of the loop.
unfoldable pub flush_end : ℕ → Refresh → Refresh
flush_end now s =
    if s.pending
    then record s { flusher = sleeping now }
    else record s { flushing = false; flusher = absent }

-- The next step of the goroutine. A sleep is over half a second after its start.
unfoldable pub flusher_step : ℕ → Flusher → Refresh → Refresh
unfolding flush_head flush_end
flusher_step now absent s = s
flusher_step now at_head s = flush_head now s
flusher_step now at_snapshot s = record s { shown = s.requested; flusher = at_end }
flusher_step now at_end s = flush_end now s
flusher_step now (sleeping since) s =
    if ltb now (since + half_second) then s else record s { flusher = at_head }

-- flushUI
unfoldable pub flush_ui : ℕ → Refresh → Refresh
unfolding flusher_step
flush_ui now s = flusher_step now s.flusher s

-- A request by anybody, and a step of the goroutine, each at its time.
pub data Event : Type 0 where
  requests flushes : ℕ → Event

abbrev pub time_of : Event → ℕ
time_of (requests now) = now
time_of (flushes now) = now

unfoldable pub step : Event → Refresh → Refresh
step (requests now) s = request_ui now s
step (flushes now) s = flush_ui now s

unfoldable pub run_events : List Event → Refresh → Refresh
unfolding step
run_events [] s = s
run_events (e ∷ es) s = run_events es (step e s)
