-- ===== src/Controller/Metrics.antt =====
-- internal/controller/metrics.go: the store of the aggregated samples. Each method holds the mutex,
-- and is one step; the clock's reads are arguments, in seconds from the origin of Protocol.Sample or,
-- for the cutoff, in nanoseconds from it. The channel `in` is a list, its oldest sample first.
mod Buckets
pub mod Order
pub mod Invariant
pub mod Timeline
pub mod Events
pub mod Totals
pub mod Late
mod Tests
unfoldable pub use Buckets.*
use home_bench.Base.{
  ℕ, zero, suc, ◌+◌, ◌-◌, ◌*◌, Bool, true, false, not, List, [], ◌∷◌, ◌++◌, map, Option, none, some,
  ◌==◌, nat_eq, if◌then◌else◌, length, select, lookup, insert, delete, ltb, leb, Float64,
}
use home_bench.Protocol.Interval.{second}
use home_bench.Protocol.Latency.{LatencySet, new_latency_set, merge_set, clone_set, add_word}
use home_bench.Protocol.Sample.{MetricSample, RunTotals, AggregatedSample}

module _ {F : Type 0} ⦃f : Float64 F⦄ where
  -- The loop of creditSecond over the history, from its end.
  unfoldable pub search_back : ℕ → Slice F → List (AggregatedSample F) → Search (AggregatedSample F)
  unfolding credit_point
  search_back sec s [] = passed
  search_back sec s (p ∷ ps) = elim (search_back sec s ps) [
    | patched later ↦ patched (p ∷ later)
    | older ↦ older
    | passed ↦
        if ltb sec p.timestamp
        then passed
        else if p.timestamp == sec
        then patched (credit_point s p ∷ ps)
        else older
  ]

  -- The end of creditSecond: the second gets a bucket of its own.
  unfoldable pub open_bucket : ℕ → Slice F → MetricsStore F → MetricsStore F
  unfolding new_bucket
  open_bucket sec s m = record m { buckets = insert sec (new_bucket sec s) m.buckets }

  -- creditSecond
  unfoldable pub credit_second : ℕ → Slice F → MetricsStore F → MetricsStore F
  unfolding credit_bucket open_bucket
  credit_second sec s m = elim (lookup sec m.buckets) [
    | some b ↦ record m { buckets = insert sec (credit_bucket s b) m.buckets }
    | none ↦ elim (search_back sec s m.history) [
      | patched points ↦ record m { history = points }
      | older ↦ open_bucket sec s m
      | passed ↦ open_bucket sec s m
    ]
  ]

  -- flushClosed
  unfoldable pub flush_closed : ℕ → MetricsStore F → MetricsStore F
  unfolding point_of
  flush_closed current m =
      let due = sort_due (select (λ e. ltb e.0 current) m.buckets) in
      record m {
        history = m.history ++ map (λ e. point_of e.1) due;
        buckets = select (λ e. not (ltb e.0 current)) m.buckets;
      }

  -- The loop of ensureSecondsThrough, for `count` seconds.
  unfoldable pub ensure_loop : ℕ → ℕ → List (ℕ × Bucket F) → List (ℕ × Bucket F)
  unfolding zero_bucket
  ensure_loop zero sec buckets = buckets
  ensure_loop (suc count) sec buckets =
      ensure_loop count (sec + 1) (elim (lookup sec buckets) [
        | some b ↦ buckets
        | none ↦ insert sec (zero_bucket sec) buckets
      ])

  -- The second after the last point of the history, or the given one if there is none.
  unfoldable pub next_second : ℕ → List (AggregatedSample F) → ℕ
  next_second now [] = now
  next_second now (p ∷ []) = p.timestamp + 1
  next_second now (p ∷ q ∷ ps) = next_second now (q ∷ ps)

  -- ensureSecondsThrough
  unfoldable pub ensure_seconds_through : ℕ → MetricsStore F → MetricsStore F
  ensure_seconds_through now m =
      let start = next_second now m.history in
      let bounded = if ltb 120 (now - start) then now - 120 else start in
      if ltb now start
      then m
      else record m { buckets = ensure_loop (now + 1 - bounded) bounded m.buckets }

  -- The loop of trim: the points before the cutoff go.
  unfoldable pub drop_before : ℕ → List (AggregatedSample F) → List (AggregatedSample F)
  drop_before now [] = []
  drop_before now (p ∷ ps) =
      let rest = drop_before now ps in
      if ltb (p.timestamp * second + history_retention) now then rest else p ∷ ps

  -- trim
  unfoldable pub trim : ℕ → MetricsStore F → MetricsStore F
  trim now m = record m { history = drop_before now m.history }

  -- The tick of the loop, with its two reads of the clock.
  unfoldable pub tick : ℕ → ℕ → MetricsStore F → MetricsStore F
  tick now cutoff_now m =
      if m.recording then trim cutoff_now (flush_closed now (ensure_seconds_through now m)) else m

  -- Begin
  unfoldable pub begin : MetricsStore F → MetricsStore F
  begin m = record m {
    history = [];
    buckets = [];
    latencies = new_latency_set;
    totals = no_totals;
    recording = true;
  }

  -- Freeze
  unfoldable pub freeze : ℕ → MetricsStore F → MetricsStore F
  freeze now m = flush_closed (now + 1) (record m { recording = false })

  -- Add
  unfoldable pub enqueue : MetricSample F → MetricsStore F → MetricsStore F
  enqueue s m =
      if ltb (length m.inbox) in_capacity then record m { inbox = m.inbox ++ (s ∷ []) } else m

  -- The seconds that a sample covers, between 1 and 120.
  unfoldable pub windows_of : MetricSample F → ℕ
  windows_of s =
      let scale = if f.flt s.interval_sec (f.of_ℕ 1) then f.of_ℕ 1 else s.interval_sec in
      let windows = f.to_ℕ (f.fround scale) in
      let windows' = if ltb windows 1 then 1 else windows in
      if ltb 120 windows' then 120 else windows'

  -- The second of a sample, or the present one if it has none.
  unfoldable pub second_of : ℕ → MetricSample F → ℕ
  second_of now s = if leb s.timestamp epoch then now else s.timestamp

  unfoldable pub slice_of : MetricSample F → Slice F
  slice_of s =
      let div = f.of_ℕ (windows_of s) in
      record {
        read_ops = f.fdiv (f.of_int64 s.read_ops) div;
        write_ops = f.fdiv (f.of_int64 s.write_ops) div;
        create_ops = f.fdiv (f.of_int64 s.create_ops) div;
        delete_ops = f.fdiv (f.of_int64 s.delete_ops) div;
        read_bytes = f.fdiv (f.of_int64 s.read_bytes) div;
        write_bytes = f.fdiv (f.of_int64 s.write_bytes) div;
      }

  -- The loop of apply over the windows, from the i-th on.
  unfoldable pub credit_loop : ℕ → ℕ → ℕ → Slice F → MetricsStore F → MetricsStore F
  credit_loop zero i sec s m = m
  credit_loop (suc count) i sec s m = credit_loop count (i + 1) sec s (credit_second (sec - i) s m)

  -- apply
  unfoldable pub apply : ℕ → ℕ → MetricSample F → MetricsStore F → MetricsStore F
  unfolding slice_of
  apply now cutoff_now s m =
      let sec = second_of now s in
      let credited = credit_loop (windows_of s) 0 sec (slice_of s) m in
      if not m.recording
      then m
      else trim cutoff_now (
          flush_closed sec (record credited {
            totals = add_totals s credited.totals;
            latencies = merge_set s.latencies credited.latencies;
          }))

  -- The loop receives the oldest sample of the channel.
  unfoldable pub receive : ℕ → ℕ → MetricsStore F → MetricsStore F
  receive now cutoff_now m = elim m.inbox [
    | [] ↦ m
    | s ∷ rest ↦ apply now cutoff_now s (record m { inbox = rest })
  ]

  -- History
  unfoldable pub history_view : ℕ → MetricsStore F → List (AggregatedSample F)
  unfolding point_of
  history_view now m =
      if m.recording
      then elim (lookup now m.buckets) [
        | some b ↦ m.history ++ (point_of b ∷ [])
        | none ↦ m.history
      ]
      else m.history

  -- Latencies
  unfoldable pub latencies_view : MetricsStore F → LatencySet F
  latencies_view m = clone_set m.latencies

  -- NewMetricsStore
  unfoldable pub new_metrics_store : MetricsStore F
  new_metrics_store = record {
    recording = false;
    history = [];
    buckets = [];
    latencies = new_latency_set;
    totals = no_totals;
    inbox = [];
  }
