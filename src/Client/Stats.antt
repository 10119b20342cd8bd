-- ===== src/Client/Stats.antt =====
-- internal/client/worker.go: Stats, the counters that a client reports and resets at each metrics
-- interval. A counter is an atomic int64, as its 64-bit pattern; a duration is in nanoseconds.
pub mod Reports
mod Tests
use home_bench.Base.{ℕ, ◌/◌, [], Float64}
use home_bench.Protocol.Latency.{
  LatencyHistogram, LatencySet, new_latency_set, observe_us, observe_failure, add_word,
}
use home_bench.Protocol.Sample.{MetricSample}

pub record Stats (F : Type 0) : Type 0 where
  pub read_ops : ℕ
  pub write_ops : ℕ
  pub create_ops : ℕ
  pub delete_ops : ℕ
  pub read_bytes : ℕ
  pub write_bytes : ℕ
  pub git_files : ℕ
  pub untar_files : ℕ
  pub latencies : LatencySet F

-- Add on each of the counters.
pub data Counter : Type 0 where
  reads writes creates deletes bytes_read bytes_written git_clones untars : Counter

unfoldable pub add_to : {F : Type 0} → Counter → ℕ → Stats F → Stats F
add_to reads n s = record s { read_ops = add_word s.read_ops n }
add_to writes n s = record s { write_ops = add_word s.write_ops n }
add_to creates n s = record s { create_ops = add_word s.create_ops n }
add_to deletes n s = record s { delete_ops = add_word s.delete_ops n }
add_to bytes_read n s = record s { read_bytes = add_word s.read_bytes n }
add_to bytes_written n s = record s { write_bytes = add_word s.write_bytes n }
add_to git_clones n s = record s { git_files = add_word s.git_files n }
add_to untars n s = record s { untar_files = add_word s.untar_files n }

-- The value of each of the counters.
unfoldable pub counter : {F : Type 0} → Counter → Stats F → ℕ
counter reads s = s.read_ops
counter writes s = s.write_ops
counter creates s = s.create_ops
counter deletes s = s.delete_ops
counter bytes_read s = s.read_bytes
counter bytes_written s = s.write_bytes
counter git_clones s = s.git_files
counter untars s = s.untar_files

-- `Swap(0)`
unfoldable pub swap : {F : Type 0} → Counter → Stats F → ℕ × Stats F
swap reads s = (s.read_ops, record s { read_ops = 0 })
swap writes s = (s.write_ops, record s { write_ops = 0 })
swap creates s = (s.create_ops, record s { create_ops = 0 })
swap deletes s = (s.delete_ops, record s { delete_ops = 0 })
swap bytes_read s = (s.read_bytes, record s { read_bytes = 0 })
swap bytes_written s = (s.write_bytes, record s { write_bytes = 0 })
swap git_clones s = (s.git_files, record s { git_files = 0 })
swap untars s = (s.untar_files, record s { untar_files = 0 })

module _ {F : Type 0} ⦃f : Float64 F⦄ where
  -- NewStats
  unfoldable pub new_stats : Stats F
  new_stats = record {
    read_ops = 0;
    write_ops = 0;
    create_ops = 0;
    delete_ops = 0;
    read_bytes = 0;
    write_bytes = 0;
    git_files = 0;
    untar_files = 0;
    latencies = new_latency_set;
  }

  -- `h.ObserveUs(float64(d.Microseconds()))`
  unfoldable pub observe : ℕ → LatencyHistogram F → LatencyHistogram F
  observe d h = observe_us (f.of_ℕ (d / 1000)) h

  -- ObserveCreate
  unfoldable pub observe_create : ℕ → Stats F → Stats F
  observe_create d s = record s {
    latencies = record s.latencies { create = observe d s.latencies.create };
  }

  -- ObserveDelete
  unfoldable pub observe_delete : ℕ → Stats F → Stats F
  observe_delete d s = record s {
    latencies = record s.latencies { delete = observe d s.latencies.delete };
  }

  -- ObserveWrite
  unfoldable pub observe_write : ℕ → Stats F → Stats F
  observe_write d s = record s {
    latencies = record s.latencies { write = observe d s.latencies.write };
  }

  -- ObserveRead
  unfoldable pub observe_read : ℕ → Stats F → Stats F
  observe_read d s = record s {
    latencies = record s.latencies { read = observe d s.latencies.read };
  }

  -- ObserveStartupCold
  unfoldable pub observe_startup_cold : ℕ → Stats F → Stats F
  observe_startup_cold d s = record s {
    latencies = record s.latencies { startup_cold = observe d s.latencies.startup_cold };
  }

  -- ObserveStartupColdFailure
  unfoldable pub observe_startup_cold_failure : Stats F → Stats F
  observe_startup_cold_failure s = record s {
    latencies = record s.latencies { startup_cold = observe_failure s.latencies.startup_cold };
  }

  -- ObserveStartupWarm
  unfoldable pub observe_startup_warm : ℕ → Stats F → Stats F
  observe_startup_warm d s = record s {
    latencies = record s.latencies { startup_warm = observe d s.latencies.startup_warm };
  }

  -- ObserveStartupWarmFailure
  unfoldable pub observe_startup_warm_failure : Stats F → Stats F
  observe_startup_warm_failure s = record s {
    latencies = record s.latencies { startup_warm = observe_failure s.latencies.startup_warm };
  }

  -- ObserveGitClone
  unfoldable pub observe_git_clone : ℕ → Stats F → Stats F
  observe_git_clone d s = record s {
    latencies = record s.latencies { git_clone = observe d s.latencies.git_clone };
  }

  -- ObserveGitCloneFailure
  unfoldable pub observe_git_clone_failure : Stats F → Stats F
  observe_git_clone_failure s = record s {
    latencies = record s.latencies { git_clone = observe_failure s.latencies.git_clone };
  }

  -- ObserveUntar
  unfoldable pub observe_untar : ℕ → Stats F → Stats F
  observe_untar d s = record s {
    latencies = record s.latencies { untar = observe d s.latencies.untar };
  }

  -- ObserveUntarFailure
  unfoldable pub observe_untar_failure : Stats F → Stats F
  observe_untar_failure s = record s {
    latencies = record s.latencies { untar = observe_failure s.latencies.untar };
  }

  -- SnapshotAndReset; each Swap is a step of its own. The client's id and the interval of the sample
  -- are set by the caller.
  unfoldable pub snapshot_and_reset : ℕ → Stats F → MetricSample F × Stats F
  unfolding swap
  snapshot_and_reset now s =
      let fresh = record s { latencies = new_latency_set } in
      let r = swap reads fresh in
      let w = swap writes r.1 in
      let c = swap creates w.1 in
      let d = swap deletes c.1 in
      let br = swap bytes_read d.1 in
      let bw = swap bytes_written br.1 in
      let g = swap git_clones bw.1 in
      let u = swap untars g.1 in
      (
        record {
          client_id = [];
          timestamp = now;
          read_ops = r.0;
          write_ops = w.0;
          delete_ops = d.0;
          create_ops = c.0;
          read_bytes = br.0;
          write_bytes = bw.0;
          git_files = g.0;
          untar_files = u.0;
          interval_sec = f.of_ℕ 0;
          latencies = s.latencies;
        },
        u.1,
      )
