-- ===== src/Protocol/Latency/Laws.antt =====
-- The histograms of internal/protocol/latency.go: their counts, their total and their failures.
use home_bench.Base.{
  ℕ, zero, suc, ◌+◌, ◌%◌, ◌≡◌, refl, ap, ◌∙◌, sym, Bool, true, false, not, ◌&&◌, List, [], ◌∷◌,
  ◌==◌, nat_eq, map, arith, if◌then◌else◌, length, length-map, length-replicate, replicate, All,
  Float64,
}
use home_bench.Protocol.Latency.{
  LatencyScale, latency_edges_for, latency_bucket_count_for, word, add_word, LatencyHistogram,
  observe_bucket, merge_counts, copy_counts, new_latency_histogram_scale, ensure_counts, observe_us,
  observe_failure, merge, clone, is_io,
}

abbrev pub sum_counts : List ℕ → ℕ
sum_counts [] = 0
sum_counts (c ∷ counts) = c + sum_counts counts

mod_left : (a b : ℕ) → (a % word + b) % word ≡ (a + b) % word
mod_left a b = omega arith

length-observe_bucket :
    (fits : List Bool) (counts : List ℕ) → length (observe_bucket fits counts) ≡ length counts
unfolding observe_bucket
length-observe_bucket fits [] = refl
length-observe_bucket [] (c ∷ counts) = refl
length-observe_bucket (b ∷ fits) (c ∷ counts) = ground (arith, length-observe_bucket fits counts)

sum_counts-observe_bucket :
    (fits : List Bool) (counts : List ℕ)
    → length counts ≡ length fits + 1
    → sum_counts (observe_bucket fits counts) % word ≡ (sum_counts counts + 1) % word
unfolding observe_bucket
sum_counts-observe_bucket fits [] h = omega arith
sum_counts-observe_bucket [] (c ∷ counts) h = omega arith
sum_counts-observe_bucket (true ∷ fits) (c ∷ counts) h = omega arith
sum_counts-observe_bucket (false ∷ fits) (c ∷ counts) h =
    omega (arith, sum_counts-observe_bucket fits counts (omega arith))

length-merge_counts : (counts other : List ℕ) → length (merge_counts counts other) ≡ length counts
unfolding merge_counts
length-merge_counts [] other = refl
length-merge_counts (c ∷ counts) [] = refl
length-merge_counts (c ∷ counts) (d ∷ other) = ap suc (length-merge_counts counts other)

sum_counts-merge_counts :
    (counts other : List ℕ)
    → length counts ≡ length other
    → sum_counts (merge_counts counts other) % word ≡ (sum_counts counts + sum_counts other) % word
unfolding merge_counts
sum_counts-merge_counts [] [] h = refl
sum_counts-merge_counts [] (d ∷ other) h = omega arith
sum_counts-merge_counts (c ∷ counts) [] h = omega arith
sum_counts-merge_counts (c ∷ counts) (d ∷ other) h =
    omega (arith, sum_counts-merge_counts counts other (omega arith))

copy_counts_all : (counts : List ℕ) → copy_counts (length counts) counts ≡ counts
unfolding copy_counts
copy_counts_all [] = refl
copy_counts_all (c ∷ counts) = ap (◌∷◌ c) (copy_counts_all counts)

sum_counts-replicate : (n : ℕ) → sum_counts (replicate n 0) ≡ 0
sum_counts-replicate zero = refl
sum_counts-replicate (suc n) = omega (arith, sum_counts-replicate n)

module _ {F : Type 0} where
  -- There is one count for each bucket, and together they are the total, as uint64.
  pub record IsCounted (h : LatencyHistogram F) : Type 0 where
    pub buckets : length h.counts ≡ latency_bucket_count_for h.scale
    pub counted : sum_counts h.counts % word ≡ h.total

merge_counts_comm :
    (counts other : List ℕ)
    → length counts ≡ length other
    → merge_counts counts other ≡ merge_counts other counts
unfolding merge_counts
merge_counts_comm [] [] h = refl
merge_counts_comm [] (d ∷ other) h = ground (arith, h)
merge_counts_comm (c ∷ counts) [] h = ground (arith, h)
merge_counts_comm (c ∷ counts) (d ∷ other) h =
    let same : c + d ≡ d + c = omega arith in
    rw (same, merge_counts_comm counts other (omega arith)) refl

bucket_count_pos : (s : LatencyScale) → (latency_bucket_count_for s == 0) ≡ false
unfolding latency_bucket_count_for
bucket_count_pos s = ground arith

-- The calls that change a histogram.
pub data Change (F : Type 0) : Type 0 where
  observes : F → Change F
  fails : Change F
  merges : LatencyHistogram F → Change F

module _ {F : Type 0} ⦃f : Float64 F⦄ where
  abbrev pub change : Change F → LatencyHistogram F → LatencyHistogram F
  change (observes us) h = observe_us us h
  change fails h = observe_failure h
  change (merges other) h = merge other h

  abbrev pub change_all : List (Change F) → LatencyHistogram F → LatencyHistogram F
  change_all [] h = h
  change_all (c ∷ cs) h = change_all cs (change c h)

  -- A histogram that is merged in has the scale of the receiver and counts its samples.
  abbrev pub Fits : LatencyScale → Change F → Type 0
  Fits scale (observes us) = Unit
  Fits scale fails = Unit
  Fits scale (merges other) = IsCounted other × (other.scale ≡ scale)

  ensured : (h : LatencyHistogram F) → IsCounted h → ensure_counts h ≡ h
  unfolding ensure_counts
  ensured h v = ground (arith, v.buckets)

  observe_us-IsCounted :
      (us : F) (h : LatencyHistogram F) → IsCounted h → IsCounted (observe_us us h)
  unfolding observe_us latency_bucket_count_for
  observe_us-IsCounted us h v =
      let fit : ℕ → Bool =
        λ edge. f.fle (if f.flt us (f.of_ℕ 0) then f.of_ℕ 0 else us) (f.of_ℕ edge) in
      let fits : List Bool = map fit (latency_edges_for h.scale) in
      rw (ensured h v) (record {
        buckets = length-observe_bucket fits h.counts ∙ v.buckets;
        counted =
            sum_counts-observe_bucket fits h.counts
              (v.buckets ∙ ap (λ n. n + 1) (sym (length-map fit (latency_edges_for h.scale))))
            ∙ omega (arith, v.counted);
      })

  -- Merge of two histograms of one scale that count their samples.
  merge_same_scale :
      (other h : LatencyHistogram F)
      → IsCounted other
      → other.scale ≡ h.scale
      → IsCounted h
      → merge other h ≡ record h {
        failures = add_word h.failures other.failures;
        total = add_word h.total other.total;
        sum_us = f.fadd h.sum_us other.sum_us;
        counts = merge_counts h.counts other.counts;
      }
  unfolding merge
  merge_same_scale other h w e v =
      let same : (if is_io h.scale && not (is_io other.scale) then other.scale else h.scale)
          ≡ h.scale =
        ground (arith, e) in
      let some_bucket : (length other.counts == 0) ≡ false =
        rw (w.buckets) (bucket_count_pos other.scale) in
      rw (same, ensured h v, some_bucket) refl

  merge-IsCounted :
      (other h : LatencyHistogram F)
      → IsCounted other
      → other.scale ≡ h.scale
      → IsCounted h
      → IsCounted (merge other h)
  merge-IsCounted other h w e v = rw (merge_same_scale other h w e v) (record {
    buckets = length-merge_counts h.counts other.counts ∙ v.buckets;
    counted =
        sum_counts-merge_counts h.counts other.counts
          (v.buckets ∙ ap latency_bucket_count_for (sym e) ∙ sym w.buckets)
        ∙ omega (arith, v.counted, w.counted);
  })

  -- A deep copy of a histogram that counts its samples is equal to it.
  pub clone_lem : (h : LatencyHistogram F) → IsCounted h → clone h ≡ h
  unfolding clone
  clone_lem h v =
      ap (λ cs. record h { counts = cs }) (rw (sym v.buckets) (copy_counts_all h.counts))

  pub new-IsCounted : (scale : LatencyScale) → IsCounted {F = F} (new_latency_histogram_scale scale)
  unfolding new_latency_histogram_scale
  new-IsCounted scale = record {
    buckets = length-replicate (latency_bucket_count_for scale) 0;
    counted = rw (sum_counts-replicate (latency_bucket_count_for scale)) refl;
  }

  pub change-IsCounted :
      (c : Change F) (h : LatencyHistogram F)
      → IsCounted h
      → Fits h.scale c
      → IsCounted (change c h) × ((change c h).scale ≡ h.scale)
  unfolding observe_failure observe_us
  change-IsCounted (observes us) h v k =
      (observe_us-IsCounted us h v, ap (λ g. g.scale) (ensured h v))
  change-IsCounted fails h v k = (record { buckets = v.buckets; counted = v.counted }, refl)
  change-IsCounted (merges other) h v k =
      (merge-IsCounted other h k.0 k.1 v, ap (λ g. g.scale) (merge_same_scale other h k.0 k.1 v))

  change_all-IsCounted :
      (cs : List (Change F)) (h : LatencyHistogram F)
      → IsCounted h
      → All (Fits h.scale) cs
      → IsCounted (change_all cs h)
  change_all-IsCounted [] h v k = v
  change_all-IsCounted (c ∷ cs) h v k =
      let (v', e) = change-IsCounted c h v k.0 in change_all-IsCounted cs (change c h) v' (rw e k.1)

  -- The samples of the calls, and their failures: one for each call, or those of a histogram merged in.
  abbrev pub samples_of : List (Change F) → ℕ
  samples_of [] = 0
  samples_of (observes us ∷ cs) = 1 + samples_of cs
  samples_of (fails ∷ cs) = samples_of cs
  samples_of (merges other ∷ cs) = other.total + samples_of cs

  abbrev pub failures_of : List (Change F) → ℕ
  failures_of [] = 0
  failures_of (observes us ∷ cs) = failures_of cs
  failures_of (fails ∷ cs) = 1 + failures_of cs
  failures_of (merges other ∷ cs) = other.failures + failures_of cs

  observe_us-total :
      (us : F) (h : LatencyHistogram F)
      → IsCounted h
      → ((observe_us us h).total ≡ add_word h.total 1) × ((observe_us us h).failures ≡ h.failures)
  unfolding observe_us
  observe_us-total us h v = rw (ensured h v) (refl, refl)

  change_all-total :
      (cs : List (Change F)) (h : LatencyHistogram F)
      → IsCounted h
      → All (Fits h.scale) cs
      → ((change_all cs h).total % word ≡ (h.total + samples_of cs) % word)
        × ((change_all cs h).failures % word ≡ (h.failures + failures_of cs) % word)
  unfolding observe_failure
  change_all-total [] h v k = (omega arith, omega arith)
  change_all-total (c ∷ cs) h v k =
      let (v', e) = change-IsCounted c h v k.0 in
      one c k.0 (change_all-total cs (change c h) v' (rw e k.1))
    where
      one :
          (d : Change F)
          → Fits h.scale d
          → ((change_all cs (change d h)).total % word
              ≡ ((change d h).total + samples_of cs) % word)
            × ((change_all cs (change d h)).failures % word
                ≡ ((change d h).failures + failures_of cs) % word)
          → ((change_all cs (change d h)).total % word ≡ (h.total + samples_of (d ∷ cs)) % word)
            × ((change_all cs (change d h)).failures % word
                ≡ (h.failures + failures_of (d ∷ cs)) % word)
      one (observes us) fit (t, x) =
          let (a, b) = observe_us-total us h v in (omega (arith, t, a), omega (arith, x, b))
      one fails fit (t, x) = (omega (arith, t), omega (arith, x))
      one (merges other) fit (t, x) =
          let same = merge_same_scale other h fit.0 fit.1 v in
          (omega (arith, t, ap (λ g. g.total) same), omega (arith, x, ap (λ g. g.failures) same))

  -- After any sequence of samples, failures and merges of histograms of its scale that count their
  -- samples, a new histogram counts its samples: one count for each bucket, and their sum is the
  -- total, as uint64; and, as uint64, the total is the number of the samples and the failures that of the failures,
  -- those of the histograms that were merged in included.
  pub history-IsCounted :
      (scale : LatencyScale) (cs : List (Change F))
      → All (Fits scale) cs
      → IsCounted {F = F} (change_all cs (new_latency_histogram_scale scale))
        × ((change_all cs (new_latency_histogram_scale scale)).total % word ≡ samples_of cs % word)
        × ((change_all cs (new_latency_histogram_scale scale)).failures % word
            ≡ failures_of cs % word)
  unfolding new_latency_histogram_scale
  history-IsCounted scale cs k =
      let h : LatencyHistogram F = new_latency_histogram_scale scale in
      let (t, x) = change_all-total cs h (new-IsCounted scale) k in
      (change_all-IsCounted cs h (new-IsCounted scale) k, omega (arith, t), omega (arith, x))

  -- Two histograms of one scale that count their samples have the same counts, total and failures
  -- whichever is merged into the other.
  merge_comm :
      (g h : LatencyHistogram F)
      → IsCounted g
      → g.scale ≡ h.scale
      → IsCounted h
      → ((merge g h).counts ≡ (merge h g).counts)
        × ((merge g h).total ≡ (merge h g).total)
        × ((merge g h).failures ≡ (merge h g).failures)
  merge_comm g h v e w =
      rw (merge_same_scale g h v e w, merge_same_scale h g w (sym e) v)
        (
          merge_counts_comm h.counts g.counts
              (w.buckets ∙ ap latency_bucket_count_for (sym e) ∙ sym v.buckets),
          omega arith,
          omega arith,
        )
