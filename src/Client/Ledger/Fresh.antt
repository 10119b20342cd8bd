-- ===== src/Client/Ledger/Fresh.antt =====
-- The indices of internal/client/worker.go: the phases of a client, two of them at once in
-- read_write, take indices by NextIndex, write the file, and then add its index to the ledger.
use home_bench.Base.{
  ℕ, suc, ◌+◌, ◌^◌, ◌≤◌, ◌<◌, ◌≡◌, Bool, true, false, not, List, [], ◌∷◌, ◌==◌, nat_eq, arith,
  signed_lt_small, Text, All, All-map, All-contains, contains, remove, Distinct, remove-Distinct,
  All-select,
}
use home_bench.Client.Ledger.Settled.{
  Settled, absent_above, Settled-take, Settled-remove, Settled-add, Settled-remove_at,
}
use home_bench.Client.Ledger.Kept.{next_existing_path-Keeps}
use home_bench.Client.Ledger.{
  FileLedger, new_file_ledger, index_after, next_past, add_index, add_bw, next_index, clear_bw,
  reset_delete_cursor, clear, next_existing_path,
}

-- The ledger, and the indices that were taken and neither added nor given up.
pub record Sharing : Type 0 where
  pub ledger : FileLedger
  pub taken : List ℕ

-- A goroutine adds or gives up what it has taken. The ledger is cleared while no phase is under way.
pub data Step (s : Sharing) : Sharing → Type 0 where
  takes :
      Step s
        (record { ledger = (next_index s.ledger).1; taken = (next_index s.ledger).0 ∷ s.taken })
  adds :
      (i : ℕ)
      → contains i s.taken ≡ true
      → Step s (record { ledger = add_index i s.ledger; taken = remove i s.taken })
  adds_bw :
      (i : ℕ)
      → contains i s.taken ≡ true
      → Step s (record { ledger = add_bw i s.ledger; taken = remove i s.taken })
  gives_up : (i : ℕ) → Step s (record { ledger = s.ledger; taken = remove i s.taken })
  scans :
      (stat : Text → Bool) (path : ℕ → Text) (removing : Bool)
      → Step s
          (record { ledger = (next_existing_path stat path removing s.ledger).1; taken = s.taken })
  clears_bw : Step s (record { ledger = clear_bw s.ledger; taken = s.taken })
  resets : Step s (record { ledger = reset_delete_cursor s.ledger; taken = s.taken })
  clears : s.taken ≡ [] → Step s (record { ledger = clear s.ledger; taken = s.taken })

-- What a new ledger can come to in that many steps.
pub data Reach : ℕ → Sharing → Type 0 where
  start : Reach 0 (record { ledger = new_file_ledger; taken = [] })
  later : {n : ℕ} {s t : Sharing} → Reach n s → Step s t → Reach (suc n) t

pub record IsFresh (n : ℕ) (s : Sharing) : Type 0 where
  pub few : s.ledger.next ≤ n
  pub taken_below : All (λ i. i < s.ledger.next) s.taken
  pub taken_distinct : Distinct s.taken
  pub indices : Settled s.ledger.next s.taken s.ledger.indices
  pub bw_indices : Settled s.ledger.next s.taken s.ledger.bw_indices

-- An index that was taken is below the next one already.
pub next_past_taken : (i next : ℕ) → i < next → next < 2 ^ 63 → next_past i next ≡ next
unfolding next_past
next_past_taken i next h k = rw (signed_lt_small i next (omega arith) k) (ground (arith, h))

All-remove : (P : ℕ → Type 0) (i : ℕ) (is : List ℕ) → All P is → All P (remove i is)
unfolding remove
All-remove P i is h = All-select P (λ j. not (j == i)) is h

-- Every step keeps the indices fresh.
Step-IsFresh : {n : ℕ} {s t : Sharing} → n < 2 ^ 63 → IsFresh n s → Step s t → IsFresh (suc n) t
unfolding next_index add_index add_bw clear_bw reset_delete_cursor clear
Step-IsFresh {n} {s} few v takes =
    let same : index_after s.ledger.next ≡ s.ledger.next + 1 = omega (arith, few, v.few) in
    rw same (record {
      few = omega (arith, v.few);
      taken_below = (omega arith, All-map (λ i p. omega arith) s.taken v.taken_below);
      taken_distinct = (absent_above s.ledger.next s.taken v.taken_below, v.taken_distinct);
      indices = Settled-take s.ledger.next s.taken s.ledger.indices v.indices;
      bw_indices = Settled-take s.ledger.next s.taken s.ledger.bw_indices v.bw_indices;
    })
Step-IsFresh {n} {s} few v (adds i c) =
    let below : i < s.ledger.next =
      All-contains (λ j. j < s.ledger.next) i s.taken v.taken_below c in
    let same : next_past i s.ledger.next ≡ s.ledger.next =
      next_past_taken i s.ledger.next below (omega (arith, v.few)) in
    rw same (record {
      few = omega (arith, v.few);
      taken_below = All-remove _ i s.taken v.taken_below;
      taken_distinct = remove-Distinct i s.taken v.taken_distinct;
      indices = Settled-add s.ledger.next i s.taken s.ledger.indices below c v.indices;
      bw_indices = Settled-remove s.ledger.next i s.taken s.ledger.bw_indices v.bw_indices;
    })
Step-IsFresh {n} {s} few v (adds_bw i c) =
    let below : i < s.ledger.next =
      All-contains (λ j. j < s.ledger.next) i s.taken v.taken_below c in
    let same : next_past i s.ledger.next ≡ s.ledger.next =
      next_past_taken i s.ledger.next below (omega (arith, v.few)) in
    rw same (record {
      few = omega (arith, v.few);
      taken_below = All-remove _ i s.taken v.taken_below;
      taken_distinct = remove-Distinct i s.taken v.taken_distinct;
      indices = Settled-add s.ledger.next i s.taken s.ledger.indices below c v.indices;
      bw_indices = Settled-add s.ledger.next i s.taken s.ledger.bw_indices below c v.bw_indices;
    })
Step-IsFresh {n} {s} few v (gives_up i) = record {
  few = omega (arith, v.few);
  taken_below = All-remove _ i s.taken v.taken_below;
  taken_distinct = remove-Distinct i s.taken v.taken_distinct;
  indices = Settled-remove s.ledger.next i s.taken s.ledger.indices v.indices;
  bw_indices = Settled-remove s.ledger.next i s.taken s.ledger.bw_indices v.bw_indices;
}
Step-IsFresh {n} {s} few v (scans stat path removing) =
    let (same, same_bw, q) =
      next_existing_path-Keeps removing (Settled s.ledger.next s.taken)
        (λ _. Settled-remove_at s.ledger.next s.taken) stat path s.ledger v.indices in
    record {
      few = rw same (omega (arith, v.few));
      taken_below = rw same v.taken_below;
      taken_distinct = v.taken_distinct;
      indices = rw same q;
      bw_indices = rw (same, same_bw) v.bw_indices;
    }
Step-IsFresh {n} {s} few v clears_bw = record {
  few = omega (arith, v.few);
  taken_below = v.taken_below;
  taken_distinct = v.taken_distinct;
  indices = v.indices;
  bw_indices = (tt, tt, tt);
}
Step-IsFresh {n} {s} few v resets = record {
  few = omega (arith, v.few);
  taken_below = v.taken_below;
  taken_distinct = v.taken_distinct;
  indices = v.indices;
  bw_indices = v.bw_indices;
}
Step-IsFresh {n} {s} few v (clears e) = rw e (record {
  few = omega arith;
  taken_below = tt;
  taken_distinct = tt;
  indices = (tt, tt, tt);
  bw_indices = (tt, tt, tt);
})

Reach-IsFresh : {n : ℕ} {s : Sharing} → n ≤ 2 ^ 63 → Reach n s → IsFresh n s
Reach-IsFresh few start = record {
  few = omega arith;
  taken_below = tt;
  taken_distinct = tt;
  indices = (tt, tt, tt);
  bw_indices = (tt, tt, tt);
}
Reach-IsFresh few (later r e) = Step-IsFresh (omega arith) (Reach-IsFresh (omega arith) r) e

-- In every state that a new ledger reaches in fewer than 2 ^ 63 steps of its phases, interleaved in
-- any way, where a phase adds only indices that it took and the ledger is cleared only while no
-- index is taken: the index that NextIndex returns is in neither list and not taken, so a new file
-- never gets the path of another one; and no index stands twice in the ledger, in the bandwidth
-- files, or among those taken.
pub fresh_index :
    {n : ℕ} {s : Sharing}
    → n < 2 ^ 63
    → Reach n s
    → (contains (next_index s.ledger).0 s.ledger.indices ≡ false)
      × (contains (next_index s.ledger).0 s.ledger.bw_indices ≡ false)
      × (contains (next_index s.ledger).0 s.taken ≡ false)
      × Distinct s.ledger.indices
      × Distinct s.ledger.bw_indices
      × Distinct s.taken
unfolding next_index
fresh_index {n} {s} few r =
    let v = Reach-IsFresh (omega arith) r in
    (
      absent_above s.ledger.next s.ledger.indices v.indices.0,
      absent_above s.ledger.next s.ledger.bw_indices v.bw_indices.0,
      absent_above s.ledger.next s.taken v.taken_below,
      v.indices.1,
      v.bw_indices.1,
      v.taken_distinct,
    )
