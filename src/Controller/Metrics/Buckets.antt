-- ===== src/Controller/Metrics/Buckets.antt =====
-- internal/controller/metrics.go: the state of the store, its buckets and the points of its history, and
-- the order in which flushClosed takes the buckets.
use home_bench.Base.{ℕ, ◌*◌, Bool, List, [], ◌∷◌, nat_eq, if◌then◌else◌, ltb, Float64}
use home_bench.Protocol.Interval.{second}
use home_bench.Protocol.Latency.{LatencySet, add_word}
use home_bench.Protocol.Sample.{MetricSample, RunTotals, AggregatedSample}

-- The origin of the times is this many seconds before 1970.
abbrev pub epoch : ℕ
epoch = 120

abbrev pub in_capacity : ℕ
in_capacity = 16384

-- HistoryRetention, in nanoseconds.
abbrev pub history_retention : ℕ
history_retention = 3600 * second

pub record Bucket (F : Type 0) : Type 0 where
  pub ts : ℕ
  pub read_ops : F
  pub write_ops : F
  pub create_ops : F
  pub delete_ops : F
  pub read_bytes : F
  pub write_bytes : F

-- What creditSecond adds to one second.
pub record Slice (F : Type 0) : Type 0 where
  pub read_ops : F
  pub write_ops : F
  pub create_ops : F
  pub delete_ops : F
  pub read_bytes : F
  pub write_bytes : F

pub record MetricsStore (F : Type 0) : Type 0 where
  pub recording : Bool
  pub history : List (AggregatedSample F)
  pub buckets : List (ℕ × Bucket F)
  pub latencies : LatencySet F
  pub totals : RunTotals
  pub inbox : List (MetricSample F)

-- What the scan of the history from its end comes to: the point of the second was patched, an older
-- point ended the scan, or every point is later.
pub data Search (A : Type 0) : Type 0 where
  patched : List A → Search A
  older passed : Search A

abbrev pub no_totals : RunTotals
no_totals = record {
  created = 0;
  deleted = 0;
  read_bytes = 0;
  write_bytes = 0;
  git_files = 0;
  untar_files = 0;
}

-- The `due` buckets in the order of their seconds. No two have one second, so every sort gives this
-- list.
unfoldable pub insert_due {ℓ} : {A : Type ℓ} → ℕ × A → List (ℕ × A) → List (ℕ × A)
insert_due a [] = a ∷ []
insert_due a (b ∷ bs) = let rest = insert_due a bs in if ltb b.0 a.0 then b ∷ rest else a ∷ b ∷ bs

unfoldable pub sort_due {ℓ} : {A : Type ℓ} → List (ℕ × A) → List (ℕ × A)
unfolding insert_due
sort_due [] = []
sort_due (a ∷ bs) = insert_due a (sort_due bs)

-- The sum that RunTotals keeps of the samples.
unfoldable pub add_totals : {F : Type 0} → MetricSample F → RunTotals → RunTotals
add_totals s t = record {
  created = add_word t.created s.create_ops;
  deleted = add_word t.deleted s.delete_ops;
  read_bytes = add_word t.read_bytes s.read_bytes;
  write_bytes = add_word t.write_bytes s.write_bytes;
  git_files = add_word t.git_files s.git_files;
  untar_files = add_word t.untar_files s.untar_files;
}

module _ {F : Type 0} ⦃f : Float64 F⦄ where
  unfoldable pub zero_bucket : ℕ → Bucket F
  zero_bucket sec = record {
    ts = sec;
    read_ops = f.of_ℕ 0;
    write_ops = f.of_ℕ 0;
    create_ops = f.of_ℕ 0;
    delete_ops = f.of_ℕ 0;
    read_bytes = f.of_ℕ 0;
    write_bytes = f.of_ℕ 0;
  }

  unfoldable pub new_bucket : ℕ → Slice F → Bucket F
  new_bucket sec s = record {
    ts = sec;
    read_ops = s.read_ops;
    write_ops = s.write_ops;
    create_ops = s.create_ops;
    delete_ops = s.delete_ops;
    read_bytes = s.read_bytes;
    write_bytes = s.write_bytes;
  }

  unfoldable pub credit_bucket : Slice F → Bucket F → Bucket F
  credit_bucket s b = record b {
    read_ops = f.fadd b.read_ops s.read_ops;
    write_ops = f.fadd b.write_ops s.write_ops;
    create_ops = f.fadd b.create_ops s.create_ops;
    delete_ops = f.fadd b.delete_ops s.delete_ops;
    read_bytes = f.fadd b.read_bytes s.read_bytes;
    write_bytes = f.fadd b.write_bytes s.write_bytes;
  }

  unfoldable pub credit_point : Slice F → AggregatedSample F → AggregatedSample F
  credit_point s p = record p {
    read_iops = f.fadd p.read_iops s.read_ops;
    write_iops = f.fadd p.write_iops (f.fadd s.write_ops s.create_ops);
    create_iops = f.fadd p.create_iops s.create_ops;
    delete_iops = f.fadd p.delete_iops s.delete_ops;
    read_bps = f.fadd p.read_bps s.read_bytes;
    write_bps = f.fadd p.write_bps s.write_bytes;
  }

  -- The point of the history that a bucket becomes.
  unfoldable pub point_of : Bucket F → AggregatedSample F
  point_of b = record {
    timestamp = b.ts;
    read_iops = b.read_ops;
    write_iops = f.fadd b.write_ops b.create_ops;
    read_bps = b.read_bytes;
    write_bps = b.write_bytes;
    create_iops = b.create_ops;
    delete_iops = b.delete_ops;
  }
