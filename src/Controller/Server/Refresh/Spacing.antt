-- ===== src/Controller/Server/Refresh/Spacing.antt =====
-- How far the pushes to the browsers lie apart: internal/controller/server.go, requestUI and flushUI.
use mathlib.Core.Path.{subst}
use home_bench.Base.{
  ℕ, ◌+◌, ◌≤◌, ◌≡◌, refl, sym, true, false, not, List, [], ◌∷◌, Option, none, some, if_elim, ltb,
  arith,
}
use home_bench.Controller.Server.Refresh.{
  half_second, Flusher, absent, at_head, at_snapshot, at_end, sleeping, Refresh, is_recent,
  request_ui, flush_head, flush_end, flusher_step, flush_ui, Event, requests, flushes, time_of,
  step, run_events,
}

-- Events in the order of time, from a time on.
abbrev pub InOrder : ℕ → List Event → Type 0
InOrder clock [] = Unit
InOrder clock (e ∷ es) = (clock ≤ time_of e) × InOrder (time_of e) es

-- Pushes half a second apart, the last one first.
abbrev pub Spaced : List ℕ → Type 0
Spaced [] = Unit
Spaced (t ∷ []) = Unit
Spaced (t ∷ u ∷ ts) = (u + half_second ≤ t) × Spaced (u ∷ ts)

-- The last push is that long ago at a time.
abbrev Past : ℕ → ℕ → Option ℕ → Type 0
Past gap clock none = Unit
Past gap clock (some at) = at + gap ≤ clock

-- By where the goroutine stands: what the last snapshot covers, and how long ago the last push was.
abbrev pub Standing : ℕ → Refresh → Flusher → Type 0
Standing clock s absent =
    (s.flushing ≡ false) × (s.pending ≡ false → s.shown ≡ s.requested) × Past 0 clock s.last_push
Standing clock s at_head =
    (s.flushing ≡ true)
    × (s.pending ≡ false → s.shown ≡ s.requested)
    × Past half_second clock s.last_push
Standing clock s at_snapshot = (s.flushing ≡ true) × Past 0 clock s.last_push
Standing clock s at_end =
    (s.flushing ≡ true) × (s.pending ≡ false → s.shown ≡ s.requested) × Past 0 clock s.last_push
Standing clock s (sleeping since) =
    (s.flushing ≡ true) × (s.pending ≡ true) × Past 0 since s.last_push × (since ≤ clock)

abbrev Latest : Option ℕ → List ℕ → Type 0
Latest none [] = Unit
Latest none (t ∷ ts) = ⊥
Latest (some at) [] = ⊥
Latest (some at) (t ∷ ts) = at ≡ t

abbrev pub Good : ℕ → Refresh → Type 0
Good clock s = Standing clock s s.flusher × Spaced s.pushes × Latest s.last_push s.pushes

Past-later : (gap clock now : ℕ) (o : Option ℕ) → clock ≤ now → Past gap clock o → Past gap now o
Past-later gap clock now none h p = tt
Past-later gap clock now (some at) h p = omega (arith, h, p)

Past-half :
    (now : ℕ) (o : Option ℕ) → Past 0 now o → is_recent now o ≡ false → Past half_second now o
unfolding is_recent
Past-half now none p h = tt
Past-half now (some at) p h = ground (arith, h, p)

Past-shorter : (now : ℕ) (o : Option ℕ) → Past half_second now o → Past 0 now o
Past-shorter now none p = tt
Past-shorter now (some at) p = omega (arith, p)

Past-slept :
    (now since : ℕ) (o : Option ℕ)
    → Past 0 since o
    → ltb now (since + half_second) ≡ false
    → Past half_second now o
Past-slept now since none p h = tt
Past-slept now since (some at) p h = ground (arith, h, p)

-- A push that comes half a second after the last one.
Spaced-push :
    (now : ℕ) (o : Option ℕ) (ts : List ℕ)
    → Past half_second now o
    → Latest o ts
    → Spaced ts
    → Spaced (now ∷ ts)
Spaced-push now none [] p l s = tt
Spaced-push now none (t ∷ ts) p l s = absurd l
Spaced-push now (some at) [] p l s = absurd l
Spaced-push now (some at) (t ∷ ts) p l s = (omega (arith, l, p), s)

-- What stands at a time stands later, unless the clock is asked.
module _ (clock now : ℕ) (later : clock ≤ now) (s : Refresh) where
  abbrev Next : Refresh → Type 0
  Next r = Standing now r r.flusher × Spaced r.pushes × Latest r.last_push r.pushes

  module _ (spaced : Spaced s.pushes) (latest : Latest s.last_push s.pushes) where
    abbrev asked : Refresh
    asked = record s { pending = true; requested = s.requested + 1 }

    stays : (at : Flusher) → s.flusher ≡ at → Standing now asked at → Next asked
    stays at e w = (subst (Standing now asked) (sym e) w, spaced, latest)

    now_pending : {A : Type 0} → asked.pending ≡ false → A
    now_pending h = absurd (ground (arith, h))

    while_flushing : s.flushing ≡ true → Next asked → Next (request_ui now s)
    unfolding request_ui
    while_flushing busy n =
        if_elim Next s.flushing (λ _. n) (λ idle. absurd (ground (arith, busy, idle)))

    request-Good : (at : Flusher) → s.flusher ≡ at → Standing clock s at → Next (request_ui now s)
    unfolding request_ui
    request-Good absent e (idle, c, p) =
        if_elim Next s.flushing (λ busy. absurd (ground (arith, busy, idle)))
          (λ _.
            if_elim Next (is_recent now s.last_push)
              (λ _. stays absent e (idle, now_pending, Past-later 0 clock now s.last_push later p))
              (λ h. (
                (
                  refl,
                  now_pending,
                  Past-half now s.last_push (Past-later 0 clock now s.last_push later p) h,
                ),
                spaced,
                latest,
              )))
    request-Good at_head e (busy, c, p) =
        while_flushing busy (
          stays at_head e (busy, now_pending, Past-later half_second clock now s.last_push later p))
    request-Good at_snapshot e (busy, p) =
        while_flushing busy (stays at_snapshot e (busy, Past-later 0 clock now s.last_push later p))
    request-Good at_end e (busy, c, p) =
        while_flushing busy
          (stays at_end e (busy, now_pending, Past-later 0 clock now s.last_push later p))
    request-Good (sleeping since) e (busy, q, p, h) =
        while_flushing busy (stays (sleeping since) e (busy, refl, p, omega (arith, h, later)))

    flush-Good :
        (at : Flusher) → s.flusher ≡ at → Standing clock s at → Next (flusher_step now at s)
    unfolding flusher_step flush_head flush_end
    flush-Good absent e (idle, c, p) = (
      subst (Standing now s) (sym e) (idle, c, Past-later 0 clock now s.last_push later p),
      spaced,
      latest,
    )
    flush-Good at_head e (busy, c, p) =
        if_elim Next (not s.pending)
          (λ h. (
            (
              refl,
              c,
              Past-shorter now s.last_push (Past-later half_second clock now s.last_push later p),
            ),
            spaced,
            latest,
          ))
          (λ _. (
            (busy, omega arith),
            Spaced-push now s.last_push s.pushes
                (Past-later half_second clock now s.last_push later p) latest spaced,
            refl,
          ))
    flush-Good at_snapshot e (busy, p) =
        ((busy, (λ _. refl), Past-later 0 clock now s.last_push later p), spaced, latest)
    flush-Good at_end e (busy, c, p) =
        if_elim Next s.pending
          (λ q.
            ((busy, q, Past-later 0 clock now s.last_push later p, omega arith), spaced, latest))
          (λ _. ((refl, c, Past-later 0 clock now s.last_push later p), spaced, latest))
    flush-Good (sleeping since) e (busy, q, p, h) =
        if_elim Next (ltb now (since + half_second))
          (λ _.
            (subst (Standing now s) (sym e) (busy, q, p, omega (arith, h, later)), spaced, latest))
          (λ woken. (
            (
              busy,
              (λ h'. absurd (ground (arith, h', q))),
              Past-slept now since s.last_push p woken,
            ),
            spaced,
            latest,
          ))

pub step-Good :
    (clock : ℕ) (e : Event) (s : Refresh)
    → clock ≤ time_of e
    → Good clock s
    → Good (time_of e) (step e s)
unfolding step flush_ui
step-Good clock (requests now) s h (v, sp, la) = request-Good clock now h s sp la s.flusher refl v
step-Good clock (flushes now) s h (v, sp, la) = flush-Good clock now h s sp la s.flusher refl v

abbrev pub last_time : ℕ → List Event → ℕ
last_time clock [] = clock
last_time clock (e ∷ es) = last_time (time_of e) es

pub run_events-Good :
    (clock : ℕ) (es : List Event) (s : Refresh)
    → InOrder clock es
    → Good clock s
    → Good (last_time clock es) (run_events es s)
unfolding run_events
run_events-Good clock [] s h v = v
run_events-Good clock (e ∷ es) s h v =
    run_events-Good (time_of e) es (step e s) h.1 (step-Good clock e s h.0 v)
