-- ===== src/Controller/Metrics/Events.antt =====
-- The events of the metrics store (internal/controller/metrics.go), and its history after all of them.
use home_bench.Base.{
  All-map, ℕ, ◌≡◌, refl, true, false, not, List, [], ◌∷◌, ◌++◌, Option, none, some, arith, nat_eq,
  if_elim, All, lookup, Float64,
}
use home_bench.Protocol.Sample.{MetricSample, AggregatedSample}
use home_bench.Controller.Metrics.{
  Bucket, MetricsStore, credit_loop, tick, begin, freeze, enqueue, windows_of, second_of, slice_of,
  apply, receive, history_view, new_metrics_store, point_of,
}
use home_bench.Controller.Metrics.Order.{Ascending, Below, Ascending-append}
use home_bench.Controller.Metrics.Invariant.{secs, IsOrdered, InTime, covered, lookup-All}
use home_bench.Controller.Metrics.Timeline.{
  credit_loop-Credited, flush_closed-IsOrdered, ensure-IsOrdered, trim-IsOrdered, secs-append,
}

-- The calls of the store, and the turns of its loop, each with what it reads of the clock.
pub data Event (F : Type 0) : Type 0 where
  begins : Event F
  freezes : ℕ → Event F
  adds : MetricSample F → Event F
  receives : ℕ → ℕ → Event F
  ticks : ℕ → ℕ → Event F

module _ {F : Type 0} ⦃f : Float64 F⦄ where
  abbrev pub step : Event F → MetricsStore F → MetricsStore F
  step begins m = begin m
  step (freezes now) m = freeze now m
  step (adds s) m = enqueue s m
  step (receives now cutoff_now) m = receive now cutoff_now m
  step (ticks now cutoff_now) m = tick now cutoff_now m

  abbrev pub run_events : List (Event F) → MetricsStore F → MetricsStore F
  run_events [] m = m
  run_events (e ∷ es) m = run_events es (step e m)

  -- Each second that the sample covers is in the history, or after all of it.
  abbrev pub IsTimely : ℕ → MetricSample F → MetricsStore F → Type 0
  IsTimely now s m =
      All (λ k. InTime k (secs m.history)) (covered (windows_of s) 0 (second_of now s))

  abbrev pub HeadTimely : ℕ → List (MetricSample F) → MetricsStore F → Type 0
  HeadTimely now [] m = Unit
  HeadTimely now (s ∷ rest) m = m.recording ≡ true → IsTimely now s m

  -- The samples that are applied while the store is recording are timely.
  abbrev pub EventTimely : Event F → MetricsStore F → Type 0
  EventTimely (receives now cutoff_now) m = HeadTimely now m.inbox m
  EventTimely _ m = Unit

  abbrev pub AllTimely : List (Event F) → MetricsStore F → Type 0
  AllTimely [] m = Unit
  AllTimely (e ∷ es) m = EventTimely e m × AllTimely es (step e m)

  -- The invariant reads the history and the buckets alone.
  same_lists :
      (m n : MetricsStore F)
      → n.history ≡ m.history
      → n.buckets ≡ m.buckets
      → IsOrdered m
      → IsOrdered n
  same_lists m n e e' v = record {
    ascending = rw e v.ascending;
    later = rw (e, e') v.later;
    keyed = rw e' v.keyed;
    distinct = rw e' v.distinct;
  }

  apply-IsOrdered :
      (now cutoff_now : ℕ) (s : MetricSample F) (m : MetricsStore F)
      → (m.recording ≡ true → IsTimely now s m)
      → IsOrdered m
      → IsOrdered (apply now cutoff_now s m)
  unfolding apply
  apply-IsOrdered now cutoff_now s m t v =
      let credited : MetricsStore F =
        credit_loop (windows_of s) 0 (second_of now s) (slice_of s) m in
      if_elim IsOrdered (not m.recording) (λ _. v)
        (λ r. trim-IsOrdered cutoff_now _ (
          flush_closed-IsOrdered (second_of now s) _ (
            same_lists credited _ refl refl
              (credit_loop-Credited (windows_of s) 0 (second_of now s) (slice_of s) m
                (t (ground (arith, r))) v).0)))

  receive-IsOrdered :
      (now cutoff_now : ℕ) (m : MetricsStore F)
      → EventTimely (receives now cutoff_now) m
      → IsOrdered m
      → IsOrdered (receive now cutoff_now m)
  unfolding receive
  receive-IsOrdered now cutoff_now m t v = first m.inbox t
    where
      first :
          (l : List (MetricSample F))
          → HeadTimely now l m
          → IsOrdered
              (elim l [ [] ↦ m | s ∷ rest ↦ apply now cutoff_now s (record m { inbox = rest }) ])
      first [] k = v
      first (s ∷ rest) k =
          apply-IsOrdered now cutoff_now s (record m { inbox = rest }) k
            (same_lists m (record m { inbox = rest }) refl refl v)

  step-IsOrdered :
      (e : Event F) (m : MetricsStore F) → EventTimely e m → IsOrdered m → IsOrdered (step e m)
  unfolding begin freeze enqueue tick
  step-IsOrdered begins m t v = record { ascending = tt; later = tt; keyed = tt; distinct = tt }
  step-IsOrdered (freezes now) m t v =
      flush_closed-IsOrdered _ _ (same_lists m (record m { recording = false }) refl refl v)
  step-IsOrdered (adds s) m t v =
      if_elim IsOrdered _ (λ _. same_lists m (record m { inbox = m.inbox ++ (s ∷ []) }) refl refl v)
        (λ _. v)
  step-IsOrdered (receives now cutoff_now) m t v = receive-IsOrdered now cutoff_now m t v
  step-IsOrdered (ticks now cutoff_now) m t v =
      if_elim IsOrdered m.recording
        (λ _. trim-IsOrdered cutoff_now _ (flush_closed-IsOrdered now _ (ensure-IsOrdered now m v)))
        (λ _. v)

  run_events-IsOrdered :
      (es : List (Event F)) (m : MetricsStore F)
      → AllTimely es m
      → IsOrdered m
      → IsOrdered (run_events es m)
  run_events-IsOrdered [] m t v = v
  run_events-IsOrdered (e ∷ es) m t v =
      run_events-IsOrdered es (step e m) t.1 (step-IsOrdered e m t.0 v)

  new_store-IsOrdered : IsOrdered {F = F} new_metrics_store
  unfolding new_metrics_store
  new_store-IsOrdered = record { ascending = tt; later = tt; keyed = tt; distinct = tt }

  history_view-Ascending :
      (now : ℕ) (m : MetricsStore F) → IsOrdered m → Ascending (secs (history_view now m))
  unfolding history_view point_of
  history_view-Ascending now m v =
      if_elim (λ (l : List (AggregatedSample F)). Ascending (secs l)) m.recording
        (λ _. open_last (lookup now m.buckets) refl) (λ _. v.ascending)
    where
      open_last :
          (o : Option (Bucket F))
          → lookup now m.buckets ≡ o
          → Ascending (secs (elim o [ some b ↦ m.history ++ (point_of b ∷ []) | none ↦ m.history ]))
      open_last none q = v.ascending
      open_last (some b) q =
          let after = lookup-All (λ e. Below (secs m.history) e.0) now b m.buckets v.later q in
          let key = lookup-All (λ e. e.1.ts ≡ e.0) now b m.buckets v.keyed q in
          rw (secs-append m.history (point_of b ∷ [])) (
            Ascending-append (secs m.history) (b.ts ∷ []) v.ascending (tt, tt)
              (All-map (λ t p. (rw key p, tt)) (secs m.history) after))

  -- After any calls of a new store and turns of its loop, in any order, if each sample was timely
  -- when it was applied to a recording store, the history that the UI reads is strictly ascending
  -- in time, the open second at its end included: no second stands twice.
  pub history-Ascending :
      (es : List (Event F)) (now : ℕ)
      → AllTimely es new_metrics_store
      → Ascending (secs (history_view now (run_events es new_metrics_store)))
  history-Ascending es now t =
      history_view-Ascending now (run_events es new_metrics_store)
        (run_events-IsOrdered es new_metrics_store t new_store-IsOrdered)
