-- ===== src/Protocol/Sample.antt =====
-- internal/protocol/protocol.go: what a client reports, and what the controller keeps of it. An int64
-- is its 64-bit pattern. A timestamp is in seconds from an origin 120 seconds before 1970, so that
-- the seconds that a report of the first days of 1970 reaches back to are still numbers.
use home_bench.Base.{ℕ, Text}
use home_bench.Protocol.Latency.{LatencySet}

-- MetricSample, without the fields that the controller does not read.
pub record MetricSample (F : Type 0) : Type 0 where
  pub client_id : Text
  pub timestamp : ℕ
  pub read_ops : ℕ
  pub write_ops : ℕ
  pub delete_ops : ℕ
  pub create_ops : ℕ
  pub read_bytes : ℕ
  pub write_bytes : ℕ
  pub git_files : ℕ
  pub untar_files : ℕ
  pub interval_sec : F
  pub latencies : LatencySet F

pub record RunTotals : Type 0 where
  pub created : ℕ
  pub deleted : ℕ
  pub read_bytes : ℕ
  pub write_bytes : ℕ
  pub git_files : ℕ
  pub untar_files : ℕ

pub record AggregatedSample (F : Type 0) : Type 0 where
  pub timestamp : ℕ
  pub read_iops : F
  pub write_iops : F
  pub read_bps : F
  pub write_bps : F
  pub create_iops : F
  pub delete_iops : F
