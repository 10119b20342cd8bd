-- ===== src/Protocol/Latency.antt =====
-- internal/protocol/latency.go: the histograms. Counts are uint64 and wrap; the sum is of the
-- parameter F. A method that changes its receiver returns it.
pub mod Laws
pub mod Fleet
mod Tests
use home_bench.Base.{
  ℕ, zero, suc, ◌+◌, ◌*◌, ◌%◌, ◌^◌, Bool, true, false, not, ◌&&◌, ◌||◌, List, [], ◌∷◌, ◌==◌, nat_eq,
  map, if◌then◌else◌, length, take, drop, ltb, replicate, Float64,
}

-- LatencyScale, with the values that JSON may bring besides the two constants.
pub data LatencyScale : Type 0 where
  scale_io scale_long : LatencyScale
  scale_other : ℕ → LatencyScale

pub is_io : LatencyScale → Bool
is_io scale_io = true
is_io _ = false

abbrev latency_bucket_edges : List ℕ
latency_bucket_edges =
    10 ∷ 20 ∷ 50 ∷ 100 ∷ 200 ∷ 500 ∷ 1000 ∷ 2000 ∷ 5000 ∷ 10000 ∷ 20000 ∷ 50000 ∷ 100000 ∷ 200000
    ∷ 500000 ∷ 1000000 ∷ 2000000 ∷ 5000000 ∷ 10000000 ∷ []

abbrev latency_long_bucket_edges : List ℕ
latency_long_bucket_edges =
    500000 ∷ 1000000 ∷ 1500000 ∷ 2000000 ∷ 3000000 ∷ 4000000 ∷ 5000000 ∷ 7500000 ∷ 10000000
    ∷ 12500000 ∷ 15000000 ∷ 20000000 ∷ 25000000 ∷ 30000000 ∷ 40000000 ∷ 50000000 ∷ 60000000 ∷ []

-- LatencyEdgesFor
unfoldable pub latency_edges_for : LatencyScale → List ℕ
latency_edges_for scale_long = latency_long_bucket_edges
latency_edges_for _ = latency_bucket_edges

-- LatencyBucketCountFor
unfoldable pub latency_bucket_count_for : LatencyScale → ℕ
latency_bucket_count_for scale = length (latency_edges_for scale) + 1

abbrev pub word : ℕ
word = 2 ^ 64

-- The sum of two uint64.
abbrev pub add_word : ℕ → ℕ → ℕ
add_word a b = (a + b) % word

pub record LatencyHistogram (F : Type 0) : Type 0 where
  pub counts : List ℕ  -- empty is also the nil slice
  pub total : ℕ
  pub sum_us : F
  pub failures : ℕ
  pub scale : LatencyScale

-- The loop of ObserveUs: the bucket of the first edge that is not below the sample, or the last one.
unfoldable pub observe_bucket : List Bool → List ℕ → List ℕ
observe_bucket fits [] = []
observe_bucket [] (c ∷ counts) = add_word c 1 ∷ counts
observe_bucket (b ∷ fits) (c ∷ counts) =
    let rest = observe_bucket fits counts in if b then add_word c 1 ∷ counts else c ∷ rest

-- The loop of Merge over the buckets that both sides have.
unfoldable pub merge_counts : List ℕ → List ℕ → List ℕ
merge_counts [] other = []
merge_counts (c ∷ counts) [] = c ∷ counts
merge_counts (c ∷ counts) (d ∷ other) = add_word c d ∷ merge_counts counts other

-- Go's `copy` into a slice of zeros of the given length.
unfoldable pub copy_counts : ℕ → List ℕ → List ℕ
copy_counts zero counts = []
copy_counts (suc n) [] = 0 ∷ copy_counts n []
copy_counts (suc n) (c ∷ counts) = c ∷ copy_counts n counts

-- The scale that Merge prefers.
unfoldable pub merged_scale : LatencyScale → LatencyScale → LatencyScale
merged_scale mine other = if is_io mine && not (is_io other) then other else mine

module _ {F : Type 0} ⦃f : Float64 F⦄ where
  -- NewLatencyHistogramScale
  unfoldable pub new_latency_histogram_scale : LatencyScale → LatencyHistogram F
  new_latency_histogram_scale scale = record {
    counts = replicate (latency_bucket_count_for scale) 0;
    total = 0;
    sum_us = f.of_ℕ 0;
    failures = 0;
    scale = scale;
  }

  -- ensureCounts
  unfoldable pub ensure_counts : LatencyHistogram F → LatencyHistogram F
  ensure_counts h =
      let n = latency_bucket_count_for h.scale in
      if length h.counts == n then h else record h { counts = replicate n 0 }

  -- ObserveUs
  unfoldable pub observe_us : F → LatencyHistogram F → LatencyHistogram F
  observe_us us h =
      let h' = ensure_counts h in
      let us' = if f.flt us (f.of_ℕ 0) then f.of_ℕ 0 else us in
      record h' {
        total = add_word h'.total 1;
        sum_us = f.fadd h'.sum_us us';
        counts =
            observe_bucket (map (λ edge. f.fle us' (f.of_ℕ edge)) (latency_edges_for h'.scale))
              h'.counts;
      }

  -- ObserveFailure
  unfoldable pub observe_failure : LatencyHistogram F → LatencyHistogram F
  observe_failure h = record h { failures = add_word h.failures 1 }

  -- Merge
  unfoldable pub merge : LatencyHistogram F → LatencyHistogram F → LatencyHistogram F
  unfolding merged_scale
  merge other h =
      let h' = ensure_counts (record h { scale = merged_scale h.scale other.scale }) in
      record h' {
        failures = add_word h'.failures other.failures;
        total = add_word h'.total other.total;
        sum_us = f.fadd h'.sum_us other.sum_us;
        counts =
            if length other.counts == 0 then h'.counts else merge_counts h'.counts other.counts;
      }

  -- Clone
  unfoldable pub clone : LatencyHistogram F → LatencyHistogram F
  clone h = record h { counts = copy_counts (latency_bucket_count_for h.scale) h.counts }

-- LatencySet
pub record LatencySet (F : Type 0) : Type 0 where
  pub create : LatencyHistogram F
  pub delete : LatencyHistogram F
  pub write : LatencyHistogram F
  pub read : LatencyHistogram F
  pub startup_cold : LatencyHistogram F
  pub startup_warm : LatencyHistogram F
  pub git_clone : LatencyHistogram F
  pub untar : LatencyHistogram F

module _ {F : Type 0} ⦃f : Float64 F⦄ where
  -- NewLatencySet
  unfoldable pub new_latency_set : LatencySet F
  new_latency_set = record {
    create = new_latency_histogram_scale scale_io;
    delete = new_latency_histogram_scale scale_io;
    write = new_latency_histogram_scale scale_long;
    read = new_latency_histogram_scale scale_long;
    startup_cold = new_latency_histogram_scale scale_long;
    startup_warm = new_latency_histogram_scale scale_long;
    git_clone = new_latency_histogram_scale scale_long;
    untar = new_latency_histogram_scale scale_long;
  }

  -- LatencySet.Merge
  unfoldable pub merge_set : LatencySet F → LatencySet F → LatencySet F
  merge_set other s = record {
    create = merge other.create s.create;
    delete = merge other.delete s.delete;
    write = merge other.write s.write;
    read = merge other.read s.read;
    startup_cold = merge other.startup_cold s.startup_cold;
    startup_warm = merge other.startup_warm s.startup_warm;
    git_clone = merge other.git_clone s.git_clone;
    untar = merge other.untar s.untar;
  }

  -- LatencySet.Clone
  unfoldable pub clone_set : LatencySet F → LatencySet F
  clone_set s = record {
    create = clone s.create;
    delete = clone s.delete;
    write = clone s.write;
    read = clone s.read;
    startup_cold = clone s.startup_cold;
    startup_warm = clone s.startup_warm;
    git_clone = clone s.git_clone;
    untar = clone s.untar;
  }
