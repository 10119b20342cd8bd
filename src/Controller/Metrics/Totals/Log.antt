-- ===== src/Controller/Metrics/Totals/Log.antt =====
-- The promise of the store in internal/controller/metrics.go: a log of the samples that it receives, and
-- what comes of them.
use home_bench.Base.{
  ℕ, ◌+◌, ◌%◌, arith, ◌≡◌, refl, Bool, true, false, List, [], ◌∷◌, ◌++◌, nat_eq, if◌then◌else◌,
  length, ltb, Float64,
}
use home_bench.Protocol.Latency.{LatencySet, merge_set, word}
use home_bench.Protocol.Sample.{MetricSample, RunTotals}
use home_bench.Controller.Metrics.{in_capacity, add_totals}
use home_bench.Controller.Metrics.Events.{Event, begins, freezes, adds, receives, ticks}

-- Whether the store records, what is queued, and the samples applied since Begin.
pub record SampleLog (F : Type 0) : Type 0 where
  pub recording : Bool
  pub inbox : List (MetricSample F)
  pub applied : List (MetricSample F)

module _ {F : Type 0} where
  abbrev pub receive_log : List (MetricSample F) → SampleLog F → SampleLog F
  receive_log [] l = l
  receive_log (s ∷ rest) l = record l {
    inbox = rest;
    applied = if l.recording then l.applied ++ (s ∷ []) else l.applied;
  }

  abbrev pub log_step : Event F → SampleLog F → SampleLog F
  log_step begins l = record l { recording = true; applied = [] }
  log_step (freezes now) l = record l { recording = false }
  log_step (adds s) l =
      if ltb (length l.inbox) in_capacity then record l { inbox = l.inbox ++ (s ∷ []) } else l
  log_step (receives now cutoff_now) l = receive_log l.inbox l
  log_step (ticks now cutoff_now) l = l

  abbrev pub log_events : List (Event F) → SampleLog F → SampleLog F
  log_events [] l = l
  log_events (e ∷ es) l = log_events es (log_step e l)

  abbrev pub new_log : SampleLog F
  new_log = record { recording = false; inbox = []; applied = [] }

  -- The sum of a field over the samples.
  abbrev pub sum_of : (MetricSample F → ℕ) → List (MetricSample F) → ℕ
  sum_of field [] = 0
  sum_of field (s ∷ ss) = field s + sum_of field ss

  pub sum_of-append :
      (field : MetricSample F → ℕ) (ss : List (MetricSample F)) (s : MetricSample F)
      → sum_of field (ss ++ (s ∷ [])) ≡ sum_of field ss + field s
  sum_of-append field [] s = omega arith
  sum_of-append field (r ∷ ss) s = omega (arith, sum_of-append field ss s)

  -- The totals are the sums of the samples, field by field, as 64-bit numbers.
  abbrev pub IsSumOf : List (MetricSample F) → RunTotals → Type 0
  IsSumOf ss t =
      (t.created ≡ sum_of (λ s. s.create_ops) ss % word)
      × (t.deleted ≡ sum_of (λ s. s.delete_ops) ss % word)
      × (t.read_bytes ≡ sum_of (λ s. s.read_bytes) ss % word)
      × (t.write_bytes ≡ sum_of (λ s. s.write_bytes) ss % word)
      × (t.git_files ≡ sum_of (λ s. s.git_files) ss % word)
      × (t.untar_files ≡ sum_of (λ s. s.untar_files) ss % word)

  pub add_totals-IsSumOf :
      (ss : List (MetricSample F)) (s : MetricSample F) (t : RunTotals)
      → IsSumOf ss t
      → IsSumOf (ss ++ (s ∷ [])) (add_totals s t)
  unfolding add_totals
  add_totals-IsSumOf ss s t (c, d, r, w, g, u) = (
    omega (arith, c, sum_of-append (λ s. s.create_ops) ss s),
    omega (arith, d, sum_of-append (λ s. s.delete_ops) ss s),
    omega (arith, r, sum_of-append (λ s. s.read_bytes) ss s),
    omega (arith, w, sum_of-append (λ s. s.write_bytes) ss s),
    omega (arith, g, sum_of-append (λ s. s.git_files) ss s),
    omega (arith, u, sum_of-append (λ s. s.untar_files) ss s),
  )

  module _ ⦃f : Float64 F⦄ where
    abbrev pub merge_latencies : List (MetricSample F) → LatencySet F → LatencySet F
    merge_latencies [] l = l
    merge_latencies (s ∷ ss) l = merge_latencies ss (merge_set s.latencies l)

    pub merge_latencies-append :
        (ss : List (MetricSample F)) (s : MetricSample F) (l : LatencySet F)
        → merge_latencies (ss ++ (s ∷ [])) l ≡ merge_set s.latencies (merge_latencies ss l)
    merge_latencies-append [] s l = refl
    merge_latencies-append (r ∷ ss) s l = merge_latencies-append ss s (merge_set r.latencies l)
