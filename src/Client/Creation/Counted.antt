-- ===== src/Client/Creation/Counted.antt =====
-- What runCreate of internal/client/worker.go records of the files that it writes.
use mathlib.Core.Path.{subst}
use mathlib.Core.List.{append-nil, append_assoc}
use home_bench.Base.{
  ℕ, suc, ◌<◌, Distinct, Distinct-append_one, nat_eq, All-map, All-append, ◌+◌, ◌*◌, ◌%◌, ◌^◌, ◌≡◌,
  refl, sym, ap, ◌∙◌, Bool, not, List, [], ◌∷◌, ◌++◌, Option, none, if_elim, length, length-append,
  arith, All, Float64,
}
use home_bench.Client.Ledger.{FileLedger, index_after, next_past, next_index, add_index}
use home_bench.Client.Ledger.Settled.{absent_above}
use home_bench.Client.Ledger.Fresh.{next_past_taken}
use home_bench.Client.Stats.{Stats, add_to, observe_create}
use home_bench.Client.Pace.{Exit, paced_elim, turns, turns_elim, turns_counted}
use home_bench.Client.Creation.{
  CreateTurn, Creating, create_file, create_turn, start_creating, run_create,
}

-- No other goroutine has touched the ledger.
abbrev pub IsAlone : {F : Type 0} → CreateTurn F → Type 0
IsAlone t = (l : FileLedger) → t.meanwhile l ≡ l

module _ {F : Type 0} ⦃f : Float64 F⦄ (size : ℕ) (ledger : FileLedger) (stats : Stats F) where
  -- The files that were written are in the ledger, and each is counted once.
  pub record Recorded (s : Creating F) : Type 0 where
    pub indices : s.ledger.indices ≡ ledger.indices ++ s.files
    pub ops : s.stats.create_ops % 2 ^ 64 ≡ (stats.create_ops + length s.files) % 2 ^ 64
    pub bytes : s.stats.write_bytes % 2 ^ 64 ≡ (stats.write_bytes + size * length s.files) % 2 ^ 64
    pub bandwidth_files : s.ledger.bw_indices ≡ ledger.bw_indices

  create_file-Recorded :
      (t : CreateTurn F) (s : Creating F) → Recorded s → Recorded (create_file size t s)
  unfolding create_file next_index add_index add_to observe_create
  create_file-Recorded t s v =
      let kept : Recorded (record s { ledger = (next_index s.ledger).1 }) = record {
        indices = v.indices;
        ops = v.ops;
        bytes = v.bytes;
        bandwidth_files = v.bandwidth_files;
      } in
      let i = (next_index s.ledger).0 in
      let more : length (s.files ++ (i ∷ [])) ≡ length s.files + 1 =
        omega (arith, length-append s.files (i ∷ [])) in
      if_elim Recorded (not t.parent_made) (λ _. kept)
        (λ _.
          if_elim Recorded (not t.written) (λ _. kept)
            (λ _. record {
              indices =
                  ap (λ is. is ++ (i ∷ [])) v.indices
                  ∙ append_assoc ledger.indices s.files (i ∷ []);
              ops = rw more (omega (arith, v.ops));
              bytes = rw more (omega (arith, v.bytes));
              bandwidth_files = v.bandwidth_files;
            }))

  create_turn-Recorded :
      (rate : F) (t : CreateTurn F) (s : Creating F)
      → IsAlone t
      → Recorded s
      → Recorded (create_turn rate size t s).0
  unfolding create_turn
  create_turn-Recorded rate t s alone v =
      let now = record s { ledger = t.meanwhile s.ledger } in
      let same : Recorded now =
        subst (λ l. Recorded (record s { ledger = l })) (sym (alone s.ledger)) v in
      paced_elim Recorded t.clock (f.fle (f.fmul rate t.clock.elapsed) s.created) now
        (create_file size t now, none) same (create_file-Recorded t now same)

module _ {F : Type 0} ⦃f : Float64 F⦄ where
  run_create_counts :
      (rate : F) (size : ℕ) (sleep_cancelled : Bool) (ts : List (CreateTurn F))
      (ledger : FileLedger) (stats : Stats F)
      → All IsAlone ts
      → Recorded size ledger stats (run_create rate size sleep_cancelled ts ledger stats).0
  unfolding run_create start_creating
  run_create_counts rate size sleep_cancelled ts ledger stats alone =
      let s : Creating F = start_creating ledger stats in
      let fresh : Recorded size ledger stats s = record {
        indices = sym (append-nil ledger.indices);
        ops = omega arith;
        bytes = omega arith;
        bandwidth_files = refl;
      } in
      if_elim (λ (r : Creating F × Option Exit). Recorded size ledger stats r.0)
        (f.fle rate (f.of_ℕ 0)) (λ _. fresh)
        (λ _.
          turns_elim (Recorded size ledger stats) IsAlone (create_turn rate size)
            (λ t s. create_turn-Recorded size ledger stats rate t s) ts s alone fresh)

  -- The indices of the ledger are below the next one, each once, and there is room for so many more.
  abbrev Room : ℕ → Creating F → Type 0
  Room n s =
      All (λ i. i < s.ledger.next) s.ledger.indices
      × Distinct s.ledger.indices
      × (s.ledger.next + n < 2 ^ 63)

  create_file-Room :
      (size n : ℕ) (t : CreateTurn F) (s : Creating F)
      → Room (suc n) s
      → Room n (create_file size t s)
  unfolding create_file next_index add_index
  create_file-Room size n t s (below, once, room) =
      let next = s.ledger.next in
      let after : index_after next ≡ next + 1 = omega (arith, room) in
      let below' : All (λ i. i < next + 1) s.ledger.indices =
        All-map (λ i p. omega (arith, p)) s.ledger.indices below in
      let kept : Room n (record s { ledger = (next_index s.ledger).1 }) =
        rw after (below', once, omega (arith, room)) in
      let stays : next_past next (index_after next) ≡ next + 1 =
        rw after (next_past_taken next (next + 1) (omega arith) (omega (arith, room))) in
      if_elim (Room n) (not t.parent_made) (λ _. kept)
        (λ _.
          if_elim (Room n) (not t.written) (λ _. kept)
            (λ _. rw stays (
              All-append (λ i. i < next + 1) s.ledger.indices (next ∷ []) below' (omega arith, tt),
              Distinct-append_one next s.ledger.indices (absent_above next s.ledger.indices below)
                  once,
              omega (arith, room),
            )))

  create_turn-Room :
      (rate : F) (size n : ℕ) (t : CreateTurn F) (s : Creating F)
      → IsAlone t
      → Room (suc n) s
      → Room n (create_turn rate size t s).0
  unfolding create_turn
  create_turn-Room rate size n t s alone v =
      let now = record s { ledger = t.meanwhile s.ledger } in
      let same : Room (suc n) now =
        subst (λ l. Room (suc n) (record s { ledger = l })) (sym (alone s.ledger)) v in
      paced_elim (Room n) t.clock (f.fle (f.fmul rate t.clock.elapsed) s.created) now
        (create_file size t now, none) (same.0, same.1, omega (arith, same.2))
        (create_file-Room size n t now same)

  -- However its turns go, where no other goroutine touches the ledger, whose indices are below the next
  -- one, each once, with room for one more for each turn: runCreate adds to the ledger exactly the files
  -- that it has written, in their order, and none to the bandwidth files; no index stands twice in the
  -- ledger afterwards, so each of the files has one of its own; and of the counters, CreateOps rises by
  -- their number and WriteBytes by their bytes, as 64-bit numbers.
  pub run_create-Recorded :
      (rate : F) (size : ℕ) (sleep_cancelled : Bool) (ts : List (CreateTurn F))
      (ledger : FileLedger) (stats : Stats F)
      → All IsAlone ts
      → All (λ i. i < ledger.next) ledger.indices
      → Distinct ledger.indices
      → ledger.next + length ts < 2 ^ 63
      → Recorded size ledger stats (run_create rate size sleep_cancelled ts ledger stats).0
        × Distinct (run_create rate size sleep_cancelled ts ledger stats).0.ledger.indices
  unfolding run_create start_creating
  run_create-Recorded rate size sleep_cancelled ts ledger stats alone below once room =
      let s : Creating F = start_creating ledger stats in
      let ends : (n : ℕ) × Room n (turns (create_turn rate size) ts s).0 =
        turns_counted Room IsAlone (create_turn rate size) (create_turn-Room rate size) ts s alone
          (below, once, room) in
      (
        run_create_counts rate size sleep_cancelled ts ledger stats alone,
        if_elim (λ (r : Creating F × Option Exit). Distinct r.0.ledger.indices)
            (f.fle rate (f.of_ℕ 0)) (λ _. once) (λ _. ends.1.1),
      )
