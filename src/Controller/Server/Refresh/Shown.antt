-- ===== src/Controller/Server/Refresh/Shown.antt =====
-- How often the browsers get a push, and which requests come to one: internal/controller/server.go,
-- requestUI and flushUI.
use home_bench.Base.{
  ℕ, ◌+◌, ◌≤◌, ◌≡◌, refl, ap, ◌∙◌, ◌⊎◌, inl, inr, Bool, true, false, List, [], ◌∷◌, if_elim, arith,
}
use home_bench.Controller.Server.Refresh.{
  half_second, Flusher, absent, at_head, at_snapshot, at_end, sleeping, Refresh, new_refresh,
  is_recent, request_ui, flush_head, flush_end, flusher_step, flush_ui, Event, requests, flushes,
  step, run_events,
}
use home_bench.Controller.Server.Refresh.Spacing.{
  InOrder, Spaced, Standing, Good, step-Good, last_time, run_events-Good,
}

abbrev pub is_absent : Flusher → Bool
is_absent absent = true
is_absent _ = false

-- The browsers are not flooded: whatever the requests and the steps of flushUI, in the order of time, two
-- pushes begin half a second apart at least.
pub pushes-Spaced : (es : List Event) → InOrder 0 es → Spaced (run_events es new_refresh).pushes
pushes-Spaced es h = (run_events-Good 0 es new_refresh h ((refl, (λ _. refl), tt), tt, tt)).1

-- Four steps of the goroutine, the second one half a second after the first.
abbrev pub four_steps : ℕ → ℕ → ℕ → ℕ → List Event
four_steps a b c d = flushes a ∷ flushes b ∷ flushes c ∷ flushes d ∷ []

module _ (clock a b c d : ℕ) (soon : clock ≤ a) (slept : a + half_second ≤ b) where
  finish :
      (at : Flusher) (s : Refresh)
      → s.flusher ≡ at
      → is_absent at ≡ false
      → s.pending ≡ true
      → Standing clock s at
      → (run_events (four_steps a b c d) s).shown ≡ (run_events (four_steps a b c d) s).requested
  unfolding run_events step flush_ui flusher_step flush_head flush_end
  finish absent s e n q v = absurd (ground (arith, n))
  finish at_head s e n q v = ground (arith, e, q)
  finish at_snapshot s e n q v = ground (arith, e, q, slept)
  finish at_end s e n q v = ground (arith, e, q, slept)
  finish (sleeping since) s e n q v = ground (arith, e, q, slept, soon, v.3)

-- Whether requestUI leaves the request to a goroutine.
is_taken :
    (now : ℕ) (s : Refresh)
    → ((s.flushing ≡ true) ⊎ (is_recent now s.last_push ≡ false))
    → (clock : ℕ) → Standing clock s s.flusher
    → is_absent (request_ui now s).flusher ≡ false
unfolding request_ui
is_taken now s (inl busy) clock v =
    if_elim (λ (r : Refresh). is_absent r.flusher ≡ false) s.flushing (λ _. taken s.flusher v)
      (λ idle. absurd (ground (arith, busy, idle)))
  where
    taken : (at : Flusher) → Standing clock s at → is_absent at ≡ false
    taken absent w = absurd (ground (arith, w.0, busy))
    taken _ w = refl
is_taken now s (inr old) clock v =
    if_elim (λ (r : Refresh). is_absent r.flusher ≡ false) s.flushing
      (λ busy. taken busy s.flusher v)
      (λ _.
        if_elim (λ (r : Refresh). is_absent r.flusher ≡ false) (is_recent now s.last_push)
          (λ h. absurd (ground (arith, h, old))) (λ _. refl))
  where
    taken : s.flushing ≡ true → (at : Flusher) → Standing clock s at → is_absent at ≡ false
    taken busy absent w = absurd (ground (arith, w.0, busy))
    taken busy _ w = refl

pending-request : (now : ℕ) (s : Refresh) → (request_ui now s).pending ≡ true
unfolding request_ui
pending-request now s = ground arith

-- A request that comes while flushUI runs, or half a second after the last push began at least, reaches
-- the browsers: after four steps of the goroutine, with half a second between the first two for its
-- sleep, the last snapshot was taken after every request made so far, this one included.
pub request_shown :
    (es : List Event) (now a b c d : ℕ)
    → InOrder 0 es
    → last_time 0 es ≤ now
    → ((run_events es new_refresh).flushing ≡ true)
      ⊎ (is_recent now (run_events es new_refresh).last_push ≡ false)
    → now ≤ a
    → a + half_second ≤ b
    → (run_events (requests now ∷ four_steps a b c d) (run_events es new_refresh)).shown
      ≡ (run_events (requests now ∷ four_steps a b c d) (run_events es new_refresh)).requested
unfolding run_events step
request_shown es now a b c d h later free soon slept =
    let s = run_events es new_refresh in
    let good : Good (last_time 0 es) s =
      run_events-Good 0 es new_refresh h ((refl, (λ _. refl), tt), tt, tt) in
    let good' : Good now (request_ui now s) =
      step-Good (last_time 0 es) (requests now) s later good in
    finish now a b c d soon slept (request_ui now s).flusher (request_ui now s) refl
      (is_taken now s free (last_time 0 es) good.0) (pending-request now s) good'.0

-- The steps of flushUI at those times.
abbrev pub flushes_at : List ℕ → List Event
flushes_at [] = []
flushes_at (t ∷ ts) = flushes t ∷ flushes_at ts

idle_flushes : (ts : List ℕ) (s : Refresh) → s.flusher ≡ absent → run_events (flushes_at ts) s ≡ s
unfolding run_events step flush_ui flusher_step
idle_flushes [] s e = refl
idle_flushes (t ∷ ts) s e =
    let same : flush_ui t s ≡ s = rw e refl in
    ap (run_events (flushes_at ts)) same ∙ idle_flushes ts s e

-- A request that comes less than half a second after the last push began, while flushUI does not run,
-- starts nothing: it is noted as pending, and whatever time goes by, no snapshot is taken after it until
-- there is another request.
pub recent_request_waits :
    (now : ℕ) (s : Refresh) (ts : List ℕ)
    → s.flushing ≡ false
    → s.flusher ≡ absent
    → is_recent now s.last_push ≡ true
    → ((request_ui now s).pending ≡ true)
      × (run_events (flushes_at ts) (request_ui now s) ≡ request_ui now s)
      × ((request_ui now s).shown ≡ s.shown)
      × ((request_ui now s).requested ≡ s.requested + 1)
unfolding request_ui
recent_request_waits now s ts idle none_running recent = (
  ground (arith, idle, recent),
  idle_flushes ts (request_ui now s) (ground (arith, idle, recent, none_running)),
  ground (arith, idle, recent),
  ground (arith, idle, recent),
)
