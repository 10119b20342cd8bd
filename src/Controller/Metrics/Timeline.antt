-- ===== src/Controller/Metrics/Timeline.antt =====
-- The history of internal/controller/metrics.go over its events.
use home_bench.Base.{
  All-map, All-append, All-select, All-both, All-passed, ℕ, zero, suc, ◌+◌, ◌-◌, ◌*◌, ◌≤◌, ◌<◌, ◌≡◌,
  refl, ap, ◌∙◌, inl, inr, Bool, not, List, [], ◌∷◌, ◌++◌, map, Option-cases, arith, nat_eq,
  if◌then◌else◌, if_elim, All, select, lookup, insert, keys, Distinct, insert-Distinct,
  keys-select-Distinct, ltb, Float64,
}
use home_bench.Protocol.Interval.{second}
use home_bench.Protocol.Sample.{AggregatedSample}
use home_bench.Controller.Metrics.{
  Bucket, Slice, MetricsStore, credit_second, flush_closed, ensure_loop, history_retention,
  next_second, ensure_seconds_through, drop_before, trim, credit_loop, sort_due, point_of,
  zero_bucket,
}
use home_bench.Controller.Metrics.Order.{
  Ascending, Below, Below-trans, Ascending-append, All-swap, All-sort_due, All-insert, All-keys,
  sort_due-Ascending,
}
use home_bench.Controller.Metrics.Invariant.{
  secs, IsOrdered, InTime, covered, Credited, credit_second-Credited,
}

module _ {F : Type 0} ⦃f : Float64 F⦄ where
  pub credit_loop-Credited :
      (count i sec : ℕ) (s : Slice F) (m : MetricsStore F)
      → All (λ k. InTime k (secs m.history)) (covered count i sec)
      → IsOrdered m
      → Credited m (credit_loop count i sec s m)
  unfolding credit_loop
  credit_loop-Credited zero i sec s m h v = (v, refl)
  credit_loop-Credited (suc count) i sec s m h v =
      let (v', e) = credit_second-Credited (sec - i) s m h.0 v in
      let (v'', e') =
        credit_loop-Credited count (i + 1) sec s (credit_second (sec - i) s m) (rw e h.1) v' in
      (v'', e' ∙ e)

  secs-points :
      (due : List (ℕ × Bucket F))
      → All (λ e. e.1.ts ≡ e.0) due
      → secs (map (λ e. point_of e.1) due) ≡ keys due
  unfolding point_of
  secs-points [] h = refl
  secs-points (e ∷ due) h = rw (h.0, secs-points due h.1) refl

  pub secs-append : (ps qs : List (AggregatedSample F)) → secs (ps ++ qs) ≡ secs ps ++ secs qs
  secs-append [] qs = refl
  secs-append (p ∷ ps) qs = ap (λ ts. p.timestamp ∷ ts) (secs-append ps qs)

  pub flush_closed-IsOrdered :
      (now : ℕ) (m : MetricsStore F) → IsOrdered m → IsOrdered (flush_closed now m)
  unfolding flush_closed
  flush_closed-IsOrdered now m v = record {
    ascending = rw new_secs (
        Ascending-append hist (keys due) v.ascending
          (sort_due-Ascending chosen (keys-select-Distinct old m.buckets v.distinct))
          (All-swap hist (keys due) (All-keys (Below hist) due due_later)));
    later =
        rw new_secs
          (All-map (λ e p. All-append (λ t. t < e.0) hist (keys due) p.0 p.1) kept kept_later);
    keyed = All-select (λ e. e.1.ts ≡ e.0) (λ e. not (ltb e.0 now)) m.buckets v.keyed;
    distinct = keys-select-Distinct (λ e. not (ltb e.0 now)) m.buckets v.distinct;
  }
    where
      old : ℕ × Bucket F → Bool
      old e = ltb e.0 now

      hist : List ℕ
      hist = secs m.history

      chosen : List (ℕ × Bucket F)
      chosen = select old m.buckets

      due : List (ℕ × Bucket F)
      due = sort_due chosen

      kept : List (ℕ × Bucket F)
      kept = select (λ e. not (ltb e.0 now)) m.buckets

      due_later : All (λ e. Below hist e.0) due
      due_later =
          All-sort_due (λ e. Below hist e.0) chosen
            (All-select (λ e. Below hist e.0) old m.buckets v.later)

      new_secs : secs (m.history ++ map (λ e. point_of e.1) due) ≡ hist ++ keys due
      new_secs =
          secs-append m.history (map (λ e. point_of e.1) due)
          ∙ ap (λ ts. hist ++ ts)
              (secs-points due (
                All-sort_due (λ e. e.1.ts ≡ e.0) chosen
                  (All-select (λ e. e.1.ts ≡ e.0) old m.buckets v.keyed)))

      due_old : Below (keys due) now
      due_old =
          All-keys (λ k. k < now) due
            (All-sort_due (λ e. e.0 < now) chosen
              (All-map (λ e p. ground (arith, p)) chosen (All-passed old m.buckets)))

      kept_later : All (λ e. Below hist e.0 × Below (keys due) e.0) kept
      kept_later =
          All-both (λ e. Below hist e.0) (λ e. Below (keys due) e.0) kept
            (All-select (λ e. Below hist e.0) (λ e. not (ltb e.0 now)) m.buckets v.later)
            (All-map (λ e p. Below-trans (keys due) now e.0 (ground (arith, p)) due_old) kept
              (All-passed (λ e. not (ltb e.0 now)) m.buckets))

  -- What the invariant says of the buckets.
  abbrev Follow : List ℕ → List (ℕ × Bucket F) → Type 0
  Follow ts bs = All (λ e. Below ts e.0) bs × All (λ e. e.1.ts ≡ e.0) bs × Distinct (keys bs)

  ensure_loop-Follow :
      (count sec : ℕ) (ts : List ℕ) (bs : List (ℕ × Bucket F))
      → Below ts sec
      → Follow ts bs
      → Follow ts (ensure_loop count sec bs)
  unfolding ensure_loop zero_bucket
  ensure_loop-Follow zero sec ts bs h v = v
  ensure_loop-Follow (suc count) sec ts bs h v =
      let h' = Below-trans ts sec (sec + 1) (omega arith) h in
      elim (Option-cases (lookup sec bs)) [
        | inl n ↦ rw n (
            ensure_loop-Follow count (sec + 1) ts (insert sec (zero_bucket sec) bs) h' (
              All-insert (λ e. Below ts e.0) sec (zero_bucket sec) bs h v.0,
              All-insert (λ e. e.1.ts ≡ e.0) sec (zero_bucket sec) bs refl v.1,
              insert-Distinct sec (zero_bucket sec) bs v.2,
            ))
        | inr (b, q) ↦ rw q (ensure_loop-Follow count (sec + 1) ts bs h' v)
      ]

  next_second-Below :
      (now : ℕ) (ps : List (AggregatedSample F))
      → Ascending (secs ps)
      → Below (secs ps) (next_second now ps)
  unfolding next_second
  next_second-Below now [] a = tt
  next_second-Below now (p ∷ []) a = (omega arith, tt)
  next_second-Below now (p ∷ q ∷ ps) a =
      let rest = next_second-Below now (q ∷ ps) a.1 in (omega (arith, rest.0, a.0.0), rest)

  pub ensure-IsOrdered :
      (now : ℕ) (m : MetricsStore F) → IsOrdered m → IsOrdered (ensure_seconds_through now m)
  unfolding ensure_seconds_through
  ensure-IsOrdered now m v =
      let start : ℕ = next_second now m.history in
      let bounded : ℕ = if ltb 120 (now - start) then now - 120 else start in
      let not_before : start ≤ bounded = ground arith in
      let after =
        Below-trans (secs m.history) start bounded not_before
          (next_second-Below now m.history v.ascending) in
      let (l, k, d) =
        ensure_loop-Follow (now + 1 - bounded) bounded (secs m.history) m.buckets after
          (v.later, v.keyed, v.distinct) in
      if_elim IsOrdered (ltb now start) (λ _. v)
        (λ _. record { ascending = v.ascending; later = l; keyed = k; distinct = d })

  All-drop_before :
      (P : ℕ → Type 0) (now : ℕ) (ps : List (AggregatedSample F))
      → All P (secs ps)
      → All P (secs (drop_before now ps))
  unfolding drop_before
  All-drop_before P now [] h = tt
  All-drop_before P now (p ∷ ps) h =
      if_elim (λ (l : List (AggregatedSample F)). All P (secs l))
        (ltb (p.timestamp * second + history_retention) now) (λ _. All-drop_before P now ps h.1)
        (λ _. h)

  drop_before-Ascending :
      (now : ℕ) (ps : List (AggregatedSample F))
      → Ascending (secs ps)
      → Ascending (secs (drop_before now ps))
  unfolding drop_before
  drop_before-Ascending now [] a = tt
  drop_before-Ascending now (p ∷ ps) a =
      if_elim (λ (l : List (AggregatedSample F)). Ascending (secs l))
        (ltb (p.timestamp * second + history_retention) now) (λ _. drop_before-Ascending now ps a.1)
        (λ _. a)

  pub trim-IsOrdered : (now : ℕ) (m : MetricsStore F) → IsOrdered m → IsOrdered (trim now m)
  unfolding trim
  trim-IsOrdered now m v = record {
    ascending = drop_before-Ascending now m.history v.ascending;
    later = All-map (λ e p. All-drop_before (λ t. t < e.0) now m.history p) m.buckets v.later;
    keyed = v.keyed;
    distinct = v.distinct;
  }
