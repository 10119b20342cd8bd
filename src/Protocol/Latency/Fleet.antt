-- ===== src/Protocol/Latency/Fleet.antt =====
-- The histograms of a run (internal/protocol/latency.go) when the sets of many clients are merged.
use home_bench.Base.{◌≡◌, refl, List, [], ◌∷◌, All, Float64}
use home_bench.Protocol.Latency.{
  LatencyHistogram, LatencyScale, scale_io, scale_long, LatencySet, new_latency_set, merge_set,
  clone_set, new_latency_histogram_scale, merge,
}
use home_bench.Protocol.Latency.Laws.{IsCounted, merges, change-IsCounted, new-IsCounted, clone_lem}

module _ {F : Type 0} ⦃f : Float64 F⦄ where
  -- A histogram of the given scale that counts its samples.
  abbrev pub Counts : LatencyScale → LatencyHistogram F → Type 0
  Counts scale h = IsCounted h × (h.scale ≡ scale)

  -- Each histogram of the set counts its samples, and has the scale of NewLatencySet.
  pub record IsCountedSet (s : LatencySet F) : Type 0 where
    pub create : Counts scale_io s.create
    pub delete : Counts scale_io s.delete
    pub write : Counts scale_long s.write
    pub read : Counts scale_long s.read
    pub startup_cold : Counts scale_long s.startup_cold
    pub startup_warm : Counts scale_long s.startup_warm
    pub git_clone : Counts scale_long s.git_clone
    pub untar : Counts scale_long s.untar

  merge-Counts :
      (scale : LatencyScale) (other h : LatencyHistogram F)
      → Counts scale other
      → Counts scale h
      → Counts scale (merge other h)
  merge-Counts scale other h (w, e) (v, k) =
      let (counted, same) = change-IsCounted (merges other) h v (w, rw (e, k) refl) in
      (counted, rw same k)

  -- The merges of a list of sets, one after the other.
  unfoldable pub merge_all : List (LatencySet F) → LatencySet F → LatencySet F
  merge_all [] s = s
  merge_all (t ∷ ts) s = merge_all ts (merge_set t s)

  merge_set-IsCountedSet :
      (t s : LatencySet F) → IsCountedSet t → IsCountedSet s → IsCountedSet (merge_set t s)
  unfolding merge_set
  merge_set-IsCountedSet t s a b = record {
    create = merge-Counts scale_io t.create s.create a.create b.create;
    delete = merge-Counts scale_io t.delete s.delete a.delete b.delete;
    write = merge-Counts scale_long t.write s.write a.write b.write;
    read = merge-Counts scale_long t.read s.read a.read b.read;
    startup_cold =
        merge-Counts scale_long t.startup_cold s.startup_cold a.startup_cold b.startup_cold;
    startup_warm =
        merge-Counts scale_long t.startup_warm s.startup_warm a.startup_warm b.startup_warm;
    git_clone = merge-Counts scale_long t.git_clone s.git_clone a.git_clone b.git_clone;
    untar = merge-Counts scale_long t.untar s.untar a.untar b.untar;
  }

  merge_all-IsCountedSet :
      (ts : List (LatencySet F)) (s : LatencySet F)
      → All IsCountedSet ts
      → IsCountedSet s
      → IsCountedSet (merge_all ts s)
  unfolding merge_all
  merge_all-IsCountedSet [] s all v = v
  merge_all-IsCountedSet (t ∷ ts) s all v =
      merge_all-IsCountedSet ts (merge_set t s) all.1 (merge_set-IsCountedSet t s all.0 v)

  fresh_set-IsCountedSet : IsCountedSet new_latency_set
  unfolding new_latency_set new_latency_histogram_scale
  fresh_set-IsCountedSet = record {
    create = (new-IsCounted scale_io, refl);
    delete = (new-IsCounted scale_io, refl);
    write = (new-IsCounted scale_long, refl);
    read = (new-IsCounted scale_long, refl);
    startup_cold = (new-IsCounted scale_long, refl);
    startup_warm = (new-IsCounted scale_long, refl);
    git_clone = (new-IsCounted scale_long, refl);
    untar = (new-IsCounted scale_long, refl);
  }

  clone_set_lem : (s : LatencySet F) → IsCountedSet s → clone_set s ≡ s
  unfolding clone_set
  clone_set_lem s v =
      rw
        (
          clone_lem s.create v.create.0,
          clone_lem s.delete v.delete.0,
          clone_lem s.write v.write.0,
          clone_lem s.read v.read.0,
          clone_lem s.startup_cold v.startup_cold.0,
          clone_lem s.startup_warm v.startup_warm.0,
          clone_lem s.git_clone v.git_clone.0,
          clone_lem s.untar v.untar.0,
        )
        refl

  -- When the sets of any number of clients, each counting its samples on the scales of
  -- NewLatencySet, are merged into a new set, the result counts its samples on those scales, and a
  -- deep copy of it is equal to it.
  fleet-IsCountedSet :
      (ts : List (LatencySet F))
      → All IsCountedSet ts
      → IsCountedSet (merge_all ts new_latency_set)
        × (clone_set (merge_all ts new_latency_set) ≡ merge_all ts new_latency_set)
  fleet-IsCountedSet ts all =
      let v = merge_all-IsCountedSet ts new_latency_set all fresh_set-IsCountedSet in
      (v, clone_set_lem (merge_all ts new_latency_set) v)
