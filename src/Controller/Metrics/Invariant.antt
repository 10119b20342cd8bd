-- ===== src/Controller/Metrics/Invariant.antt =====
-- The history of internal/controller/metrics.go: its order of time, and the seconds that it covers.
use home_bench.Base.{
  All-map, ℕ, zero, suc, ◌+◌, ◌-◌, ◌<◌, ◌≡◌, refl, ap, inl, inr, ◌⊎◌, true, List, [], ◌∷◌, map,
  none, some, Option-cases, arith, ◌==◌, nat_eq, if◌then◌else◌, Bool-cases, All, lookup, insert,
  keys, contains, Distinct, insert-Distinct, ltb, eq_iff, Float64,
}
use home_bench.Protocol.Sample.{AggregatedSample}
use home_bench.Controller.Metrics.{
  Bucket, Slice, MetricsStore, Search, patched, older, passed, search_back, credit_second,
  open_bucket, credit_bucket, new_bucket, credit_point,
}
use home_bench.Controller.Metrics.Order.{Ascending, Below, All-insert}

-- A second is in the history, or after all of it.
abbrev pub InTime : ℕ → List ℕ → Type 0
InTime sec ts = (contains sec ts ≡ true) ⊎ Below ts sec

-- The seconds that the loop of apply credits.
abbrev pub covered : ℕ → ℕ → ℕ → List ℕ
covered zero i sec = []
covered (suc count) i sec = (sec - i) ∷ covered count (i + 1) sec

pub Search-cases :
    {A : Type 0} (r : Search A) → ((l : List A) × (r ≡ patched l)) ⊎ (r ≡ older) ⊎ (r ≡ passed)
Search-cases (patched l) = inl (l, refl)
Search-cases older = inr (inl refl)
Search-cases passed = inr (inr refl)

-- What holds of all entries of a map holds of one that is looked up.
pub lookup-All :
    {A : Type 0} (P : ℕ × A → Type 0) (k : ℕ) (v : A) (m : List (ℕ × A))
    → All P m
    → lookup k m ≡ some v
    → P (k, v)
unfolding lookup
lookup-All P k v [] a h = ground (arith, h)
lookup-All P k v ((j, w) ∷ m) a h = elim (Bool-cases (j == k)) [
  | inl e ↦
      let same : some w ≡ some v = ground (arith, h, e) in
      let same' : w ≡ v = ground (arith, same) in rw (← (eq_iff j k).0 e, ← same') a.0
  | inr n ↦ lookup-All P k v m a.1 (ground (arith, h, n))
]

module _ {F : Type 0} where
  -- The seconds of the history.
  abbrev pub secs : List (AggregatedSample F) → List ℕ
  secs = map λ p. p.timestamp

  -- The history is strictly ascending, and the open buckets, one for each second, are after it.
  pub record IsOrdered (m : MetricsStore F) : Type 0 where
    pub ascending : Ascending (secs m.history)
    pub later : All (λ e. Below (secs m.history) e.0) m.buckets
    pub keyed : All (λ e. e.1.ts ≡ e.0) m.buckets
    pub distinct : Distinct (keys m.buckets)

  -- What a search says of the seconds.
  abbrev Keeps : List ℕ → Search (AggregatedSample F) → Type 0
  Keeps ts (patched l) = secs l ≡ ts
  Keeps ts older = Unit
  Keeps ts passed = Unit

  module _ ⦃f : Float64 F⦄ where
    search_back-Keeps :
        (sec : ℕ) (s : Slice F) (ps : List (AggregatedSample F))
        → Keeps (secs ps) (search_back sec s ps)
    unfolding search_back credit_point
    search_back-Keeps sec s [] = tt
    search_back-Keeps sec s (p ∷ ps) = step (search_back sec s ps) (search_back-Keeps sec s ps)
      where
        step :
            (r : Search (AggregatedSample F))
            → Keeps (secs ps) r
            → Keeps (secs (p ∷ ps)) (elim r [
              | patched l ↦ patched (p ∷ l)
              | older ↦ older
              | passed ↦
                  if ltb sec p.timestamp
                  then passed
                  else if p.timestamp == sec
                  then patched (credit_point s p ∷ ps)
                  else older
            ])
        step (patched l) k = ap (λ ts. p.timestamp ∷ ts) k
        step older k = tt
        step passed k = ground arith

    -- A search for a second before all of the points passes them all.
    pub search_back_passed :
        (sec : ℕ) (s : Slice F) (ps : List (AggregatedSample F))
        → All (λ t. sec < t) (secs ps)
        → search_back sec s ps ≡ passed
    unfolding search_back
    search_back_passed sec s [] h = refl
    search_back_passed sec s (p ∷ ps) h = rw (search_back_passed sec s ps h.1) (ground (arith, h.0))

    -- A second of an ascending history is found.
    search_back_found :
        (sec : ℕ) (s : Slice F) (ps : List (AggregatedSample F))
        → Ascending (secs ps)
        → contains sec (secs ps) ≡ true
        → (l : List (AggregatedSample F)) × (search_back sec s ps ≡ patched l)
    unfolding search_back contains
    search_back_found sec s [] a h = ground arith
    search_back_found sec s (p ∷ ps) a h = elim (Bool-cases (p.timestamp == sec)) [
      | inl e ↦
          let none_later : All (λ t. sec < t) (secs ps) =
            All-map (λ t q. ground (arith, e, q)) (secs ps) a.0 in
          (credit_point s p ∷ ps, rw (search_back_passed sec s ps none_later) (ground (arith, e)))
      | inr n ↦ let (l, q) = search_back_found sec s ps a.1 (ground arith) in (p ∷ l, rw q refl)
    ]

    -- What creditSecond leaves of an ordered store.
    abbrev pub Credited : MetricsStore F → MetricsStore F → Type 0
    Credited m n = IsOrdered n × (secs n.history ≡ secs m.history)

    open_bucket-Credited :
        (sec : ℕ) (s : Slice F) (m : MetricsStore F)
        → Below (secs m.history) sec
        → IsOrdered m
        → Credited m (open_bucket sec s m)
    unfolding open_bucket new_bucket
    open_bucket-Credited sec s m h v = (
      record {
        ascending = v.ascending;
        later = All-insert (λ e. Below (secs m.history) e.0) sec _ m.buckets h v.later;
        keyed = All-insert (λ e. e.1.ts ≡ e.0) sec _ m.buckets refl v.keyed;
        distinct = insert-Distinct sec _ m.buckets v.distinct;
      },
      refl,
    )

    -- The three ways that creditSecond can take.
    pub credit_some :
        (sec : ℕ) (s : Slice F) (m : MetricsStore F) (b : Bucket F)
        → lookup sec m.buckets ≡ some b
        → credit_second sec s m ≡ record m { buckets = insert sec (credit_bucket s b) m.buckets }
    unfolding credit_second
    credit_some sec s m b q = rw (credit_second, q) refl

    pub credit_patched :
        (sec : ℕ) (s : Slice F) (m : MetricsStore F) (l : List (AggregatedSample F))
        → lookup sec m.buckets ≡ none
        → search_back sec s m.history ≡ patched l
        → credit_second sec s m ≡ record m { history = l }
    unfolding credit_second
    credit_patched sec s m l n q = rw (credit_second, n, q) refl

    pub credit_open :
        (sec : ℕ) (s : Slice F) (m : MetricsStore F)
        → lookup sec m.buckets ≡ none
        → (search_back sec s m.history ≡ older) ⊎ (search_back sec s m.history ≡ passed)
        → credit_second sec s m ≡ open_bucket sec s m
    unfolding credit_second
    credit_open sec s m n (inl q) = rw (credit_second, n, q) refl
    credit_open sec s m n (inr q) = rw (credit_second, n, q) refl

    -- A second that is in time and not found is after all of the history.
    unfound_Below :
        (sec : ℕ) (s : Slice F) (m : MetricsStore F)
        → InTime sec (secs m.history)
        → Ascending (secs m.history)
        → (search_back sec s m.history ≡ older) ⊎ (search_back sec s m.history ≡ passed)
        → Below (secs m.history) sec
    unfound_Below sec s m (inr h) a q = h
    unfound_Below sec s m (inl h) a (inl q) =
        let (l, found) = search_back_found sec s m.history a h in cc
    unfound_Below sec s m (inl h) a (inr q) =
        let (l, found) = search_back_found sec s m.history a h in cc

    pub credit_second-Credited :
        (sec : ℕ) (s : Slice F) (m : MetricsStore F)
        → InTime sec (secs m.history)
        → IsOrdered m
        → Credited m (credit_second sec s m)
    unfolding credit_bucket
    credit_second-Credited sec s m h v = elim (Option-cases (lookup sec m.buckets)) [
      | inr (b, q) ↦ rw (credit_some sec s m b q) (credited_some b q)
      | inl n ↦ elim (Search-cases (search_back sec s m.history)) [
        | inl (l, q) ↦ rw (credit_patched sec s m l n q) (credited_patched l q)
        | inr q ↦
            rw (credit_open sec s m n q)
              (open_bucket-Credited sec s m (unfound_Below sec s m h v.ascending q) v)
      ]
    ]
      where
        later_P : ℕ × Bucket F → Type 0
        later_P e = Below (secs m.history) e.0

        credited_some :
            (b : Bucket F)
            → lookup sec m.buckets ≡ some b
            → Credited m (record m { buckets = insert sec (credit_bucket s b) m.buckets })
        credited_some b q = (
          record {
            ascending = v.ascending;
            later =
                All-insert later_P sec _ m.buckets (lookup-All later_P sec b m.buckets v.later q)
                  v.later;
            keyed =
                All-insert (λ e. e.1.ts ≡ e.0) sec (credit_bucket s b) m.buckets
                  (lookup-All (λ e. e.1.ts ≡ e.0) sec b m.buckets v.keyed q) v.keyed;
            distinct = insert-Distinct sec _ m.buckets v.distinct;
          },
          refl,
        )

        credited_patched :
            (l : List (AggregatedSample F))
            → search_back sec s m.history ≡ patched l
            → Credited m (record m { history = l })
        credited_patched l q =
            let same : secs l ≡ secs m.history = rw q at (search_back-Keeps sec s m.history) in
            (
              record {
                ascending = rw same v.ascending;
                later = rw same v.later;
                keyed = v.keyed;
                distinct = v.distinct;
              },
              same,
            )
