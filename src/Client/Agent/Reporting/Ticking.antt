-- ===== src/Client/Agent/Reporting/Ticking.antt =====
-- internal/client/agent.go: the interval that setMetricsInterval sets, what is in intervalCh, and the
-- interval of the ticker of metricsLoop.
use mathlib.Core.Path.{subst}
use home_bench.Base.{
  ℕ, ◌≤◌, ◌<◌, ◌≡◌, refl, sym, ap, ◌∙◌, List, [], ◌∷◌, ◌++◌, if_elim, length, length-append, drop,
  ltb, leb, Bool, true, false, if◌then◌else◌, ◌==◌, nat_eq, All, All-append, arith, Float64,
}
use home_bench.Protocol.Interval.{second, metrics_interval, metrics_interval_max}
use home_bench.Client.Agent.Reporting.{
  interval_queue, Sender, no_call, at_send, at_receive, at_resend, Reporting, interval_of,
  store_interval, send_step, or_default, receive_interval, start_metrics, Event, sets, sends,
  receives, call_from, step, run_events,
}

-- A duration that an agent accepts.
abbrev pub IsAccepted : ℕ → Type 0
IsAccepted d = (metrics_interval ≤ d) × (d ≤ metrics_interval_max)

abbrev pub at_least : ℕ → ℕ → ℕ
at_least low d = if leb low d then d else low

abbrev pub at_most : ℕ → ℕ → ℕ
at_most high d = if leb d high then d else high

-- No call of setMetricsInterval is under way.
abbrev pub is_idle : Sender → Bool
is_idle no_call = true
is_idle _ = false

-- The last number of a list, or the one before it.
abbrev pub last_of : ℕ → List ℕ → ℕ
last_of x [] = x
last_of x (y ∷ ys) = last_of y ys

last_of-append : (x : ℕ) (ys : List ℕ) (d : ℕ) → last_of x (ys ++ (d ∷ [])) ≡ d
last_of-append x [] d = refl
last_of-append x (y ∷ ys) d = last_of-append y ys d

-- What setMetricsInterval has still to send is the interval; with nothing to send, the last one of the
-- channel is, or the ticker's when the channel is empty.
abbrev Follows : Sender → Reporting → Type 0
Follows no_call r = last_of r.ticker r.interval_ch ≡ r.interval
Follows (at_send d) r = d ≡ r.interval
Follows (at_receive d) r = d ≡ r.interval
Follows (at_resend d) r = (d ≡ r.interval) × (length r.interval_ch < interval_queue)

record IsTicking (r : Reporting) : Type 0 where
  follows : Follows r.sender r
  accepted : IsAccepted r.interval
  queued : All IsAccepted r.interval_ch
  few : length r.interval_ch ≤ interval_queue

or_default-IsAccepted : (d : ℕ) → IsAccepted d → or_default d ≡ d
or_default-IsAccepted d h = ground (arith, h)

All-drop_one : (ds : List ℕ) → All IsAccepted ds → All IsAccepted (drop 1 ds)
All-drop_one [] h = tt
All-drop_one (d ∷ ds) h = h.1

length-drop_one : (ds : List ℕ) → length ds ≤ interval_queue → length (drop 1 ds) < interval_queue
length-drop_one [] h = omega arith
length-drop_one (d ∷ ds) h = omega (arith, h)

-- A send into a channel with room.
sent-IsTicking :
    (d : ℕ) (r : Reporting)
    → d ≡ r.interval
    → length r.interval_ch < interval_queue
    → IsTicking r
    → IsTicking (record r { interval_ch = r.interval_ch ++ (d ∷ []); sender = no_call })
sent-IsTicking d r e room v = record {
  follows = last_of-append r.ticker r.interval_ch d ∙ e;
  accepted = v.accepted;
  queued =
      All-append IsAccepted r.interval_ch (d ∷ []) v.queued (ground (arith, e, v.accepted), tt);
  few = ground (arith, room, length-append r.interval_ch (d ∷ []));
}

module _ (r : Reporting) (v : IsTicking r) where
  send_step-IsTicking : (at : Sender) → Follows at r → IsTicking (send_step at r)
  unfolding send_step
  send_step-IsTicking no_call w = v
  send_step-IsTicking (at_send d) w =
      if_elim IsTicking (ltb (length r.interval_ch) interval_queue)
        (λ room. sent-IsTicking d r w (ground (arith, room)) v)
        (λ _. record { follows = w; accepted = v.accepted; queued = v.queued; few = v.few })
  send_step-IsTicking (at_receive d) w = record {
    follows = (w, length-drop_one r.interval_ch v.few);
    accepted = v.accepted;
    queued = All-drop_one r.interval_ch v.queued;
    few = omega (arith, length-drop_one r.interval_ch v.few);
  }
  send_step-IsTicking (at_resend d) w =
      if_elim IsTicking (ltb (length r.interval_ch) interval_queue)
        (λ room. sent-IsTicking d r w.0 w.1 v) (λ full. absurd (ground (arith, full, w.1)))

  Follows-receive :
      (at : Sender) (d : ℕ) (ds : List ℕ)
      → r.interval_ch ≡ d ∷ ds
      → IsAccepted d
      → Follows at r
      → Follows at (record r { interval_ch = ds; ticker = or_default d })
  Follows-receive no_call d ds e h w =
      ap (λ x. last_of x ds) (or_default-IsAccepted d h) ∙ (sym (ap (last_of r.ticker) e) ∙ w)
  Follows-receive (at_send d') d ds e h w = w
  Follows-receive (at_receive d') d ds e h w = w
  Follows-receive (at_resend d') d ds e h w = (w.0, omega (arith, ap length e, w.1))

  receive-IsTicking : (ds : List ℕ) → r.interval_ch ≡ ds → IsTicking (receive_interval ds r)
  unfolding receive_interval
  receive-IsTicking [] e = v
  receive-IsTicking (d ∷ ds) e =
      let q : All IsAccepted (d ∷ ds) = subst (All IsAccepted) e v.queued in
      record {
        follows = Follows-receive r.sender d ds e q.0 v.follows;
        accepted = v.accepted;
        queued = q.1;
        few = omega (arith, ap length e, v.few);
      }

interval-send_step : (at : Sender) (r : Reporting) → (send_step at r).interval ≡ r.interval
unfolding send_step
interval-send_step at r = ground arith

interval-receive_interval :
    (ds : List ℕ) (r : Reporting) → (receive_interval ds r).interval ≡ r.interval
unfolding receive_interval
interval-receive_interval [] r = refl
interval-receive_interval (d ∷ ds) r = refl

module _ {F : Type 0} ⦃f : Float64 F⦄ where
  interval_of-IsAccepted : (sec : F) → IsAccepted (interval_of sec)
  unfolding interval_of
  interval_of-IsAccepted sec = ground arith

  call-IsTicking :
      (at : Sender) (sec : F) (r : Reporting)
      → r.sender ≡ at
      → IsTicking r
      → IsTicking (call_from at sec r)
  unfolding call_from store_interval
  call-IsTicking no_call sec r e v =
      if_elim IsTicking (r.interval == interval_of sec) (λ _. v)
        (λ _. record {
          follows = refl;
          accepted = interval_of-IsAccepted sec;
          queued = v.queued;
          few = v.few;
        })
  call-IsTicking (at_send d) sec r e v = v
  call-IsTicking (at_receive d) sec r e v = v
  call-IsTicking (at_resend d) sec r e v = v

  step-IsTicking : (e : Event F) (r : Reporting) → IsTicking r → IsTicking (step e r)
  unfolding step
  step-IsTicking (sets sec) r v = call-IsTicking r.sender sec r refl v
  step-IsTicking sends r v = send_step-IsTicking r v r.sender v.follows
  step-IsTicking receives r v = receive-IsTicking r v r.interval_ch refl

  run_events-IsTicking :
      (es : List (Event F)) (r : Reporting) → IsTicking r → IsTicking (run_events es r)
  unfolding run_events
  run_events-IsTicking [] r v = v
  run_events-IsTicking (e ∷ es) r v = run_events-IsTicking es (step e r) (step-IsTicking e r v)

  -- What a number of seconds asks for: that time within the bounds, and MetricsInterval for none.
  abbrev pub asked_for : F → ℕ
  asked_for sec =
      if f.flt (f.of_ℕ 0) sec
      then at_least metrics_interval
          (at_most metrics_interval_max (f.to_ℕ (f.fmul sec (f.of_ℕ second))))
      else metrics_interval

  -- What was asked for last, by the calls, each of which comes when the call before it has returned.
  abbrev pub last_asked : List (Event F) → Reporting → ℕ → ℕ
  last_asked [] r d = d
  last_asked (sets sec ∷ es) r d =
      last_asked es (step (sets sec) r) (if is_idle r.sender then asked_for sec else d)
  last_asked (sends ∷ es) r d = last_asked es (step {F = F} sends r) d
  last_asked (receives ∷ es) r d = last_asked es (step {F = F} receives r) d

  interval_of-asked_for : (sec : F) → interval_of sec ≡ asked_for sec
  unfolding interval_of
  interval_of-asked_for sec = ground arith

  interval-call_from :
      (at : Sender) (sec : F) (r : Reporting)
      → (call_from at sec r).interval ≡ (if is_idle at then asked_for sec else r.interval)
  unfolding call_from store_interval
  interval-call_from no_call sec r = rw (← (interval_of-asked_for sec)) (
      if_elim (λ (q : Reporting). q.interval ≡ interval_of sec) (r.interval == interval_of sec)
        (λ e. ground (arith, e)) (λ _. refl))
  interval-call_from (at_send d) sec r = refl
  interval-call_from (at_receive d) sec r = refl
  interval-call_from (at_resend d) sec r = refl

  interval-run_events :
      (es : List (Event F)) (r : Reporting) (d : ℕ)
      → r.interval ≡ d
      → (run_events es r).interval ≡ last_asked es r d
  unfolding run_events step
  interval-run_events [] r d e = e
  interval-run_events (sets sec ∷ es) r d e = interval-run_events es (call_from r.sender sec r) _ (
      interval-call_from r.sender sec r ∙ ap (λ x. if is_idle r.sender then asked_for sec else x) e)
  interval-run_events (sends ∷ es) r d e =
      interval-run_events es (send_step r.sender r) d (interval-send_step r.sender r ∙ e)
  interval-run_events (receives ∷ es) r d e =
      interval-run_events es (receive_interval r.interval_ch r) d
        (interval-receive_interval r.interval_ch r ∙ e)

  -- However the calls of setMetricsInterval and metricsLoop interleave, from an interval between
  -- MetricsInterval and MetricsIntervalMax on, and while no call is under way: the interval of the agent
  -- is the one that the last call asked for, or the first one where there was no call, cut to
  -- those bounds; all that is in the channel is between them too, and it holds 4 intervals at most; and
  -- the agent's interval is the last one in the channel, or the ticker's where the channel is empty, so that
  -- the ticker has it when the channel is read out, though a full channel drops its oldest.
  pub ticks_at_interval :
      (start : ℕ) (es : List (Event F))
      → IsAccepted start
      → (run_events es (start_metrics start)).sender ≡ no_call
      → ((run_events es (start_metrics start)).interval ≡ last_asked es (start_metrics start) start)
        × IsAccepted (run_events es (start_metrics start)).interval
        × All IsAccepted (run_events es (start_metrics start)).interval_ch
        × (length (run_events es (start_metrics start)).interval_ch ≤ 4)
        × (last_of
              (run_events es (start_metrics start)).ticker
              (run_events es (start_metrics start)).interval_ch
            ≡ (run_events es (start_metrics start)).interval)
  ticks_at_interval start es h idle =
      let r = run_events es (start_metrics start) in
      let v : IsTicking r = run_events-IsTicking es (start_metrics start) (record {
        follows = or_default-IsAccepted start h;
        accepted = h;
        queued = tt;
        few = omega arith;
      }) in
      (
        interval-run_events es (start_metrics start) start refl,
        v.accepted,
        v.queued,
        v.few,
        subst (λ at. Follows at r) idle v.follows,
      )
