-- ===== src/Client/Agent/Reporting.antt =====
-- internal/client/agent.go: setMetricsInterval, which the session calls, and the interval of the ticker
-- in metricsLoop, which it reaches over the channel intervalCh. Durations are nanoseconds. The two
-- goroutines interleave at each access of the mutex or the channel.
pub mod Ticking
use home_bench.Base.{
  ℕ, ◌*◌, List, [], ◌∷◌, ◌++◌, if◌then◌else◌, length, drop, ltb, ◌==◌, nat_eq, Float64,
}
use home_bench.Protocol.Interval.{second, metrics_interval, metrics_interval_max}

-- The capacity of intervalCh.
abbrev pub interval_queue : ℕ
interval_queue = 4

-- Where setMetricsInterval stands: it has not been called, or it comes to its first send, to the
-- receive that makes room, or to its second send, of that interval.
pub data Sender : Type 0 where
  no_call : Sender
  at_send at_receive at_resend : ℕ → Sender

-- metricsInterval and intervalCh, and the interval of the ticker.
pub record Reporting : Type 0 where
  pub interval : ℕ
  pub interval_ch : List ℕ
  pub ticker : ℕ
  pub sender : Sender

module _ {F : Type 0} ⦃f : Float64 F⦄ where
  -- The interval that setMetricsInterval sets for a number of seconds.
  unfoldable pub interval_of : F → ℕ
  interval_of sec =
      let asked = f.to_ℕ (f.fmul sec (f.of_ℕ second)) in
      if f.flt (f.of_ℕ 0) sec
      then if ltb asked metrics_interval
        then metrics_interval
        else if ltb metrics_interval_max asked
        then metrics_interval_max
        else asked
      else metrics_interval

  -- The part of setMetricsInterval under the mutex, and the comparison with the interval before it.
  unfoldable pub store_interval : F → Reporting → Reporting
  unfolding interval_of
  store_interval sec r =
      let d = interval_of sec in
      if r.interval == d then r else record r { interval = d; sender = at_send d }

-- The next access of intervalCh in setMetricsInterval.
unfoldable pub send_step : Sender → Reporting → Reporting
send_step no_call r = r
send_step (at_send d) r =
    if ltb (length r.interval_ch) interval_queue
    then record r { interval_ch = r.interval_ch ++ (d ∷ []); sender = no_call }
    else record r { sender = at_receive d }
send_step (at_receive d) r = record r { interval_ch = drop 1 r.interval_ch; sender = at_resend d }
send_step (at_resend d) r =
    if ltb (length r.interval_ch) interval_queue
    then record r { interval_ch = r.interval_ch ++ (d ∷ []); sender = no_call }
    else record r { sender = no_call }

-- An interval of no length counts as MetricsInterval.
abbrev pub or_default : ℕ → ℕ
or_default d = if d == 0 then metrics_interval else d

-- `case d := <-a.intervalCh` of metricsLoop
unfoldable pub receive_interval : List ℕ → Reporting → Reporting
receive_interval [] r = r
receive_interval (d ∷ ds) r = record r { interval_ch = ds; ticker = or_default d }

-- The start of metricsLoop, in a session of an agent with that interval.
abbrev pub start_metrics : ℕ → Reporting
start_metrics interval = record {
  interval = interval;
  interval_ch = [];
  ticker = or_default interval;
  sender = no_call;
}

-- A call of setMetricsInterval, once the call before it has returned; its next step; and a step of
-- metricsLoop.
pub data Event (F : Type 0) : Type 0 where
  sets : F → Event F
  sends receives : Event F

module _ {F : Type 0} ⦃f : Float64 F⦄ where
  -- A call by the session, which is in no other call.
  unfoldable pub call_from : Sender → F → Reporting → Reporting
  unfolding store_interval
  call_from no_call sec r = store_interval sec r
  call_from _ sec r = r

  unfoldable pub step : Event F → Reporting → Reporting
  unfolding call_from send_step receive_interval
  step (sets sec) r = call_from r.sender sec r
  step sends r = send_step r.sender r
  step receives r = receive_interval r.interval_ch r

  unfoldable pub run_events : List (Event F) → Reporting → Reporting
  unfolding step
  run_events [] r = r
  run_events (e ∷ es) r = run_events es (step e r)
