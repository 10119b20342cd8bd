-- ===== src/Controller/Metrics/Late.antt =====
-- What creditSecond and flushClosed of internal/controller/metrics.go do with a second that is before
-- all of the history and has no open bucket.
use mathlib.Core.List.{append_assoc}
use home_bench.Base.{
  All-contains, ℕ, ◌≤◌, ◌<◌, ◌≡◌, refl, ap, ◌∙◌, inl, inr, true, false, not, List, [], ◌∷◌, ◌++◌,
  none, arith, ◌==◌, nat_eq, All, select, lookup, insert, contains, ltb, eq_iff, Float64,
}
use home_bench.Protocol.Sample.{AggregatedSample}
use home_bench.Controller.Metrics.{
  Slice, MetricsStore, older, search_back, open_bucket, new_bucket, point_of, flush_closed,
  credit_second, sort_due,
}
use home_bench.Controller.Metrics.Invariant.{secs, search_back_passed, credit_open}
use home_bench.Controller.Metrics.Timeline.{secs-append}

module _ {A : Type 0} where
  lookup_absent :
      (now k : ℕ) (m : List (ℕ × A)) → All (λ e. now ≤ e.0) m → k < now → lookup k m ≡ none
  unfolding lookup
  lookup_absent now k [] a h = refl
  lookup_absent now k (e ∷ m) a h =
      let rest = lookup_absent now k m a.1 h in ground (arith, rest, a.0, h, eq_iff e.0 k)

  -- An early entry is the only one that is due.
  select_early :
      (now k : ℕ) (v : A) (m : List (ℕ × A))
      → All (λ e. now ≤ e.0) m
      → k < now
      → (select (λ e. ltb e.0 now) (insert k v m) ≡ (k, v) ∷ [])
        × (select (λ e. not (ltb e.0 now)) (insert k v m) ≡ m)
  unfolding insert
  select_early now k v [] a h = (ground arith, ground arith)
  select_early now k v (e ∷ m) a h =
      let other : (e.0 == k) ≡ false = ground (arith, a.0, h, eq_iff e.0 k) in
      let later : ltb e.0 now ≡ false = ground (arith, a.0) in
      let (due, kept) = select_early now k v m a.1 h in
      rw (other, later) (due, ap (λ l. e ∷ l) kept)

module _ {F : Type 0} ⦃f : Float64 F⦄ where
  -- A flush closes the early bucket alone.
  flush_early :
      (now sec : ℕ) (s : Slice F) (m : MetricsStore F)
      → All (λ e. now ≤ e.0) m.buckets
      → sec < now
      → flush_closed now (open_bucket sec s m)
        ≡ record m { history = m.history ++ (point_of (new_bucket sec s) ∷ []) }
  unfolding flush_closed open_bucket sort_due
  flush_early now sec s m a h =
      let (due, kept) = select_early now sec (new_bucket sec s) m.buckets a h in rw (due, kept) refl

  -- The scan for a second ends at a last point that is before it.
  search_back_older :
      (sec : ℕ) (s : Slice F) (ps : List (AggregatedSample F)) (p : AggregatedSample F)
      → p.timestamp < sec
      → search_back sec s (ps ++ (p ∷ [])) ≡ older
  unfolding search_back
  search_back_older sec s [] p h = ground arith
  search_back_older sec s (q ∷ ps) p h = rw (search_back_older sec s ps p h) refl

  -- With no bucket due at `now`: a second before all of the history goes to the end of the history,
  -- out of the order of time, and a second of the history that is credited next goes to the end too,
  -- so that it stands in the history twice.
  pub credit_late_lem :
      (sec t now : ℕ) (s s' : Slice F) (m : MetricsStore F)
      → All (λ e. now ≤ e.0) m.buckets
      → All (λ u. sec < u) (secs m.history)
      → contains t (secs m.history) ≡ true
      → t < now
      → secs
          (flush_closed now (credit_second t s' (flush_closed now (credit_second sec s m)))).history
        ≡ secs m.history ++ (sec ∷ t ∷ [])
  unfolding point_of new_bucket
  credit_late_lem sec t now s s' m b a c h =
      let before : sec < t = All-contains (λ u. sec < u) t (secs m.history) a c in
      let after : sec < now = omega (arith, before, h) in
      let p : AggregatedSample F = point_of (new_bucket sec s) in
      let n : MetricsStore F = record m { history = m.history ++ (p ∷ []) } in
      let first =
        ap (flush_closed now) (
          credit_open sec s m (lookup_absent now sec m.buckets b after)
            (inr (search_back_passed sec s m.history a)))
        ∙ flush_early now sec s m b after in
      let next =
        ap (flush_closed now) (
          credit_open t s' n (lookup_absent now t m.buckets b h)
            (inl (search_back_older t s' m.history p before)))
        ∙ flush_early now t s' n b h in
      ap (λ k. secs (flush_closed now (credit_second t s' k)).history) first
      ∙ ap (λ k. secs k.history) next
      ∙ secs-append (m.history ++ (p ∷ [])) (point_of (new_bucket t s') ∷ [])
      ∙ ap (λ ts. ts ++ (t ∷ [])) (secs-append m.history (p ∷ []))
      ∙ append_assoc (secs m.history) (sec ∷ []) (t ∷ [])
