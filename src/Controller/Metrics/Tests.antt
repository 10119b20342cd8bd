-- ===== src/Controller/Metrics/Tests.antt =====
-- The metrics store (internal/controller/metrics.go) on concrete samples, with whole numbers for the
-- floating-point ones.
use home_bench.Base.{
  ℕ, ◌≡◌, ◌≤◌, ◌<◌, ◌++◌, true, refl, inl, inr, List, [], ◌∷◌, All, contains, lookup, insert,
  whole_floats, arith, nat_eq, codes,
}
use home_bench.Protocol.Latency.{new_latency_set, clone_set}
use home_bench.Protocol.Sample.{MetricSample}
use home_bench.Controller.Metrics.{
  MetricsStore, Slice, new_metrics_store, begin, enqueue, receive, tick, apply, credit_loop,
  credit_second, search_back, flush_closed, ensure_seconds_through, ensure_loop, next_second, trim,
  drop_before, windows_of, second_of, sort_due, point_of, zero_bucket, history_view, latencies_view,
}
use home_bench.Controller.Metrics.Order.{Ascending}
use home_bench.Controller.Metrics.Invariant.{secs}
use home_bench.Controller.Metrics.Events.{
  Event, begins, adds, receives, ticks, run_events, AllTimely, history-Ascending,
}
use home_bench.Controller.Metrics.Totals.{
  IsSumOf, merge_latencies, log_events, new_log, run_events-log_events,
}
use home_bench.Controller.Metrics.Late.{credit_late_lem}

abbrev sample_at : ℕ → ℕ → MetricSample ℕ
sample_at sec seconds = record {
  client_id = codes "c1";
  timestamp = sec;
  read_ops = 6;
  write_ops = 0;
  create_ops = 12;
  delete_ops = 0;
  read_bytes = 600;
  write_bytes = 0;
  git_files = 0;
  untar_files = 0;
  interval_sec = seconds;
  latencies = new_latency_set;
}

-- A sample of two seconds, a tick, and a sample of three seconds that credits two of the history.
abbrev timely_events : List (Event ℕ)
timely_events =
    begins
    ∷ adds (sample_at 200 2)
    ∷ receives 200 0
    ∷ ticks 201 0
    ∷ adds (sample_at 201 3)
    ∷ receives 201 0
    ∷ []

timely_events-AllTimely : AllTimely timely_events new_metrics_store
unfolding begin enqueue receive tick apply credit_loop credit_second search_back flush_closed
    ensure_seconds_through ensure_loop next_second trim drop_before windows_of second_of sort_due
    point_of zero_bucket new_metrics_store lookup insert contains
timely_events-AllTimely = (
  tt,
  (
    tt,
    (
      (λ _. (inr tt, (inr tt, tt))),
      (tt, (tt, ((λ _. (inr (omega arith, (omega arith, tt)), (inl refl, (inl refl, tt)))), tt))),
    ),
  ),
)

history-Ascending_example :
    Ascending (secs (history_view 201 (run_events timely_events new_metrics_store)))
history-Ascending_example = history-Ascending timely_events 201 timely_events-AllTimely

run_events-log_events_example :
    IsSumOf
      (log_events timely_events (new_log {F = ℕ})).applied
      (run_events timely_events new_metrics_store).totals
    × (latencies_view (run_events timely_events new_metrics_store)
        ≡ clone_set
            (merge_latencies (log_events timely_events (new_log {F = ℕ})).applied new_latency_set))
    × ((run_events timely_events new_metrics_store).recording
        ≡ (log_events timely_events (new_log {F = ℕ})).recording)
    × ((run_events timely_events new_metrics_store).inbox
        ≡ (log_events timely_events (new_log {F = ℕ})).inbox)
run_events-log_events_example = run_events-log_events timely_events

abbrev two_points : MetricsStore ℕ
two_points = record (new_metrics_store {F = ℕ}) {
  history = point_of (zero_bucket 100) ∷ point_of (zero_bucket 101) ∷ [];
  buckets = (102, zero_bucket 102) ∷ [];
}

abbrev one_slice : Slice ℕ
one_slice = record {
  read_ops = 1;
  write_ops = 0;
  create_ops = 0;
  delete_ops = 0;
  read_bytes = 10;
  write_bytes = 0;
}

two_points-early :
    All (λ e. 102 ≤ e.0) two_points.buckets
    × All (λ u. 99 < u) (secs two_points.history)
    × (contains 101 (secs two_points.history) ≡ true)
unfolding point_of zero_bucket contains
two_points-early = ((omega arith, tt), (omega arith, (omega arith, tt)), refl)

-- The second 101 stands in the history twice.
credit_late_lem_example :
    secs
      (flush_closed 102 (
        credit_second 101 one_slice
          (flush_closed 102 (credit_second 99 one_slice two_points)))).history
    ≡ secs two_points.history ++ (99 ∷ 101 ∷ [])
credit_late_lem_example =
    credit_late_lem 99 101 102 one_slice one_slice two_points two_points-early.0 two_points-early.1
      two_points-early.2 (omega arith)
