-- ===== src/Protocol/Latency/Tests.antt =====
-- Two histograms with samples, and the theorems of Latency at them.
use home_bench.Base.{ℕ, ◌%◌, ◌≡◌, refl, List, [], ◌∷◌, whole_floats}
use home_bench.Protocol.Latency.{
  word, LatencyHistogram, scale_io, new_latency_histogram_scale, observe_us, observe_failure,
  observe_bucket, ensure_counts, latency_edges_for, latency_bucket_count_for,
}
use home_bench.Protocol.Latency.Laws.{
  samples_of, failures_of, IsCounted, Change, observes, fails, merges, change_all,
  history-IsCounted,
}

abbrev changes : List (Change ℕ)
changes = observes 15 ∷ observes 700 ∷ fails ∷ observes 99000000 ∷ []

abbrev sampled : LatencyHistogram ℕ
sampled = change_all changes (new_latency_histogram_scale scale_io)

sampled_counts :
    (sampled.counts
      ≡ 0 ∷ 1 ∷ 0 ∷ 0 ∷ 0 ∷ 0 ∷ 1 ∷ 0 ∷ 0 ∷ 0 ∷ 0 ∷ 0 ∷ 0 ∷ 0 ∷ 0 ∷ 0 ∷ 0 ∷ 0 ∷ 0 ∷ 1 ∷ [])
    × (sampled.total ≡ 3)
unfolding observe_us observe_bucket ensure_counts latency_edges_for latency_bucket_count_for
    new_latency_histogram_scale observe_failure
sampled_counts = (refl, refl)

sampled-IsCounted : IsCounted sampled
sampled-IsCounted = (history-IsCounted scale_io changes (tt, (tt, (tt, (tt, tt))))).0

abbrev more : List (Change ℕ)
more = merges sampled ∷ observes 3 ∷ []

abbrev merged : LatencyHistogram ℕ
merged = change_all more (new_latency_histogram_scale scale_io)

sampled_scale : sampled.scale ≡ scale_io
unfolding observe_us ensure_counts latency_bucket_count_for latency_edges_for
    new_latency_histogram_scale observe_bucket observe_failure
sampled_scale = refl

history-IsCounted_example :
    IsCounted {F = ℕ} (change_all more (new_latency_histogram_scale scale_io))
    × ((change_all more (new_latency_histogram_scale scale_io)).total % word
        ≡ samples_of more % word)
    × ((change_all more (new_latency_histogram_scale scale_io)).failures % word
        ≡ failures_of more % word)
history-IsCounted_example =
    history-IsCounted scale_io more ((sampled-IsCounted, sampled_scale), (tt, tt))
