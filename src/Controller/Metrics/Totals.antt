-- ===== src/Controller/Metrics/Totals.antt =====
-- The totals and the latencies of the store of internal/controller/metrics.go, against an abstract log of
-- the samples that were applied since Begin.
mod Log
unfoldable pub use Log.*
use home_bench.Base.{
  ℕ, zero, suc, ◌+◌, ◌-◌, ◌≡◌, refl, ap, ◌∙◌, inl, inr, Bool, true, false, not, List, [], ◌∷◌, ◌++◌,
  Option-cases, arith, nat_eq, if◌then◌else◌, if_elim, length, lookup, ltb, Float64,
}
use home_bench.Protocol.Latency.{LatencySet, new_latency_set, merge_set, clone_set}
use home_bench.Protocol.Sample.{MetricSample, RunTotals}
use home_bench.Controller.Metrics.{
  Slice, MetricsStore, in_capacity, credit_second, credit_loop, search_back, open_bucket,
  flush_closed, ensure_seconds_through, trim, tick, begin, freeze, enqueue, windows_of, second_of,
  slice_of, apply, receive, latencies_view, new_metrics_store, add_totals,
}
use home_bench.Controller.Metrics.Invariant.{Search-cases, credit_some, credit_patched, credit_open}
use home_bench.Controller.Metrics.Events.{
  Event, begins, freezes, adds, receives, ticks, step, run_events,
}

module _ {F : Type 0} where
  module _ ⦃f : Float64 F⦄ where
    -- The store stands for the log.
    pub record Refines (m : MetricsStore F) (l : SampleLog F) : Type 0 where
      pub recording : m.recording ≡ l.recording
      pub inbox : m.inbox ≡ l.inbox
      pub totals : IsSumOf l.applied m.totals
      pub latencies : m.latencies ≡ merge_latencies l.applied new_latency_set

    -- Two stores that differ in the history and the buckets at most.
    abbrev Alike : MetricsStore F → MetricsStore F → Type 0
    Alike m n =
        (n.recording ≡ m.recording)
        × (n.inbox ≡ m.inbox)
        × (n.totals ≡ m.totals)
        × (n.latencies ≡ m.latencies)

    credit_second-Alike :
        (sec : ℕ) (s : Slice F) (m : MetricsStore F) → Alike m (credit_second sec s m)
    unfolding open_bucket
    credit_second-Alike sec s m = elim (Option-cases (lookup sec m.buckets)) [
      | inr (b, q) ↦ rw (credit_some sec s m b q) (refl, refl, refl, refl)
      | inl n ↦ elim (Search-cases (search_back sec s m.history)) [
        | inl (l, q) ↦ rw (credit_patched sec s m l n q) (refl, refl, refl, refl)
        | inr q ↦ rw (credit_open sec s m n q) (refl, refl, refl, refl)
      ]
    ]

    credit_loop-Alike :
        (count i sec : ℕ) (s : Slice F) (m : MetricsStore F) → Alike m (credit_loop count i sec s m)
    unfolding credit_loop
    credit_loop-Alike zero i sec s m = (refl, refl, refl, refl)
    credit_loop-Alike (suc count) i sec s m =
        let (a, b, c, d) = credit_second-Alike (sec - i) s m in
        let (a', b', c', d') =
          credit_loop-Alike count (i + 1) sec s (credit_second (sec - i) s m) in
        (a' ∙ a, b' ∙ b, c' ∙ c, d' ∙ d)

    -- A sample that is applied to a recording store.
    applied-Refines :
        (sec cutoff_now : ℕ) (s : MetricSample F) (rest : List (MetricSample F))
        (m n : MetricsStore F) (l : SampleLog F)
        → l.recording ≡ true
        → Alike (record m { inbox = rest }) n
        → Refines m l
        → Refines
            (trim cutoff_now (
              flush_closed sec (record n {
                totals = add_totals s n.totals;
                latencies = merge_set s.latencies n.latencies;
              })))
            (receive_log (s ∷ rest) l)
    unfolding trim flush_closed
    applied-Refines sec cutoff_now s rest m n l r (a, b, c, d) v = record {
      recording = a ∙ v.recording;
      inbox = b;
      totals = rw (r, c) (add_totals-IsSumOf l.applied s m.totals v.totals);
      latencies =
          rw (r, merge_latencies-append l.applied s new_latency_set)
            (ap (λ k. merge_set s.latencies k) (d ∙ v.latencies));
    }

    -- A sample that is received while the store does not record.
    skipped-Refines :
        (s : MetricSample F) (rest : List (MetricSample F)) (m : MetricsStore F) (l : SampleLog F)
        → l.recording ≡ false
        → Refines m l
        → Refines (record m { inbox = rest }) (receive_log (s ∷ rest) l)
    skipped-Refines s rest m l r v = record {
      recording = v.recording;
      inbox = refl;
      totals = rw r v.totals;
      latencies = rw r v.latencies;
    }

    apply-Refines :
        (now cutoff_now : ℕ) (s : MetricSample F) (rest : List (MetricSample F))
        (m : MetricsStore F) (l : SampleLog F)
        → Refines m l
        → Refines (apply now cutoff_now s (record m { inbox = rest })) (receive_log (s ∷ rest) l)
    unfolding apply
    apply-Refines now cutoff_now s rest m l v =
        if_elim (λ (n : MetricsStore F). Refines n (receive_log (s ∷ rest) l)) (not m.recording)
          (λ h. skipped-Refines s rest m l (ground (arith, h, v.recording)) v)
          (λ h.
            applied-Refines (second_of now s) cutoff_now s rest m _ l
              (ground (arith, h, v.recording))
              (credit_loop-Alike (windows_of s) 0 (second_of now s) (slice_of s)
                (record m { inbox = rest }))
              v)

    receive-Refines :
        (now cutoff_now : ℕ) (m : MetricsStore F) (l : SampleLog F)
        → Refines m l
        → Refines (receive now cutoff_now m) (log_step (receives now cutoff_now) l)
    unfolding receive
    receive-Refines now cutoff_now m l v = first m.inbox l.inbox v.inbox
      where
        first :
            (i j : List (MetricSample F))
            → i ≡ j
            → Refines
                (elim i [ [] ↦ m | s ∷ rest ↦ apply now cutoff_now s (record m { inbox = rest }) ])
                (receive_log j l)
        first [] [] e = v
        first (s ∷ rest) j e = rw (← e) (apply-Refines now cutoff_now s rest m l v)
        first [] (s ∷ rest) e = ground (arith, e)

    ensure-Alike : (now : ℕ) (m : MetricsStore F) → Alike m (ensure_seconds_through now m)
    unfolding ensure_seconds_through
    ensure-Alike now m =
        if_elim (Alike m) (ltb now _) (λ _. (refl, refl, refl, refl))
          (λ _. (refl, refl, refl, refl))

    step-Refines :
        (e : Event F) (m : MetricsStore F) (l : SampleLog F)
        → Refines m l
        → Refines (step e m) (log_step e l)
    unfolding begin freeze enqueue tick flush_closed trim
    step-Refines begins m l v = record {
      recording = refl;
      inbox = v.inbox;
      totals = (refl, refl, refl, refl, refl, refl);
      latencies = refl;
    }
    step-Refines (freezes now) m l v = record {
      recording = refl;
      inbox = v.inbox;
      totals = v.totals;
      latencies = v.latencies;
    }
    step-Refines (adds s) m l v = rw (← v.inbox) (
        if_elim
          (λ (n : MetricsStore F). Refines n (log_step (adds s) (record l { inbox = m.inbox })))
          (ltb (length m.inbox) in_capacity)
          (λ h. rw h (record {
            recording = v.recording;
            inbox = refl;
            totals = v.totals;
            latencies = v.latencies;
          }))
          (λ h. rw h (record {
            recording = v.recording;
            inbox = refl;
            totals = v.totals;
            latencies = v.latencies;
          })))
    step-Refines (receives now cutoff_now) m l v = receive-Refines now cutoff_now m l v
    step-Refines (ticks now cutoff_now) m l v =
        if_elim (λ (n : MetricsStore F). Refines n l) m.recording
          (λ _.
            let (a, b, c, d) = ensure-Alike now m in
            record {
              recording = a ∙ v.recording;
              inbox = b ∙ v.inbox;
              totals = rw c (v.totals);
              latencies = d ∙ v.latencies;
            })
          (λ _. v)

    run-Refines :
        (es : List (Event F)) (m : MetricsStore F) (l : SampleLog F)
        → Refines m l
        → Refines (run_events es m) (log_events es l)
    run-Refines [] m l v = v
    run-Refines (e ∷ es) m l v = run-Refines es (step e m) (log_step e l) (step-Refines e m l v)

    new-Refines : Refines new_metrics_store new_log
    unfolding new_metrics_store
    new-Refines = record {
      recording = refl;
      inbox = refl;
      totals = (refl, refl, refl, refl, refl, refl);
      latencies = refl;
    }

    -- After any calls of a new store and turns of its loop, in any order, each of the totals is the sum of
    -- its field over the samples received while the store was recording, since the last Begin, as a 64-bit
    -- number, and the latencies
    -- that the UI reads are a copy of the merge of theirs in that order: whatever seconds they
    -- cover and whatever was flushed, patched or trimmed in between. The samples are received in
    -- the order of Add, and one that Add meets a full channel with is dropped.
    pub run_events-log_events :
        (es : List (Event F))
        → IsSumOf (log_events es new_log).applied (run_events es new_metrics_store).totals
          × (latencies_view (run_events es new_metrics_store)
              ≡ clone_set (merge_latencies (log_events es new_log).applied new_latency_set))
          × ((run_events es new_metrics_store).recording ≡ (log_events es new_log).recording)
          × ((run_events es new_metrics_store).inbox ≡ (log_events es new_log).inbox)
    unfolding latencies_view
    run_events-log_events es =
        let v = run-Refines es new_metrics_store new_log new-Refines in
        (v.totals, ap clone_set v.latencies, v.recording, v.inbox)
