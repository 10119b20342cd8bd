-- ===== src/Controller/Server/Delivery/Reached.antt =====
-- Who gets a message of the orchestrator: internal/controller/server.go.
use mathlib.Core.Path.{subst}
use mathlib.Core.Option
use home_bench.Base.{
  ℕ, zero, suc, ◌≤◌, ◌≡◌, refl, ap, ◌∙◌, inl, inr, Bool, true, false, ◌||◌, List, [], ◌∷◌, ◌++◌,
  Option, none, some, Option-cases, Text, ◌==◌, nat_eq, list_eq, eq_iff, if◌then◌else◌, Bool-cases,
  length, drop, lookup, lookup-insert, contains, arith,
}
use home_bench.Controller.Server.Queue.{client_send_queue, enqueue, enqueue_lem}
use home_bench.Controller.Server.Delivery.{Queues, Drained, enqueue_at, send_to_all}

-- What a message does to a queue, by whether its client is meant: it stands at the end of the queue of a
-- client that is connected, and the queues of others are as they were.
abbrev pub Reached : {A : Type 0} → A → Bool → Option (List A) → Option (List A) → Type 0
Reached raw false out out' = out' ≡ out
Reached {A} raw true none out' = out' ≡ none
Reached {A} raw true (some out) out' = (front : List A) × (out' ≡ some (front ++ (raw ∷ [])))

-- The queues hold no more than their capacity.
abbrev pub WithinCapacity : {A : Type 0} → Queues A → Type 0
WithinCapacity {A} queues =
    (id : Text) (out : List A) → lookup id queues ≡ some out → length out ≤ client_send_queue

module _ {A : Type 0} where
  drop-append_of_le :
      (j : ℕ) (x : A) (xs : List A)
      → j ≤ length xs
      → drop j (xs ++ (x ∷ [])) ≡ drop j xs ++ (x ∷ [])
  drop-append_of_le zero x xs h = refl
  drop-append_of_le (suc j) x [] h = absurd (omega (arith, h))
  drop-append_of_le (suc j) x (y ∷ xs) h = drop-append_of_le j x xs (omega (arith, h))

  Reached-then :
      (raw : A) (b c : Bool) (o o' o'' : Option (List A))
      → Reached raw b o o'
      → Reached raw c o' o''
      → Reached raw (b || c) o o''
  Reached-then raw false c o o' o'' e h = subst (λ x. Reached raw c x o'') e h
  Reached-then raw true false none o' o'' e h = h ∙ e
  Reached-then raw true false (some out) o' o'' (front, e) h = (front, h ∙ e)
  Reached-then raw true true none o' o'' e h = subst (λ x. Reached raw true x o'') e h
  Reached-then raw true true (some out) o' o'' (front, e) h =
      subst (λ x. Reached raw true x o'') e h

  module _ (drained : Drained) (raw : A) where
    -- The queue of a client, once the message has come to it.
    abbrev sent : Text → List A → List A
    sent id out = (enqueue raw (drop (drained id).0) (drop (drained id).1) out).0

    -- The message that comes to a queue.
    at_end :
        (id : Text) (out : List A)
        → length out ≤ client_send_queue
        → (front : List A) × (sent id out ≡ front ++ (raw ∷ []))
          × (length (front ++ (raw ∷ [])) ≤ client_send_queue)
    at_end id out few =
        let (j, h, e, k) = enqueue_lem raw (drained id).0 (drained id).1 out few in
        let here = ap (λ r. r.0) e ∙ drop-append_of_le j raw out h in
        (drop j out, here, rw (← here) k)

    -- The message at a queue that is there, and at one that is not.
    Reached-enqueue :
        (id : Text) (o : Option (List A))
        → ((out : List A) → o ≡ some out → length out ≤ client_send_queue)
        → Reached raw true o (Option.map (sent id) o)
    Reached-enqueue id none few = refl
    Reached-enqueue id (some out) few =
        let (front, e, _) = at_end id out (few out refl) in (front, ap some e)

    lookup-enqueue_at :
        (id j : Text) (queues : Queues A)
        → lookup j (enqueue_at drained raw id queues)
          ≡ (if id == j then Option.map (sent j) (lookup j queues) else lookup j queues)
    unfolding enqueue_at
    lookup-enqueue_at id j queues = elim (Option-cases (lookup id queues)) [
      | inl e ↦
          rw (enqueue_at, e)
            (elim (Bool-cases (id == j)) [
              | inl same ↦ rw (same, rw ((eq_iff id j).0 same) at e) refl
              | inr other ↦ rw other refl
            ])
      | inr (out, e) ↦
          rw (enqueue_at, e)
            (lookup-insert id j (sent id out) queues ∙ elim (Bool-cases (id == j)) [
              | inl same ↦
                  rw (same, rw ((eq_iff id j).0 same) at e)
                    (ap (λ k. some (sent k out)) ((eq_iff id j).0 same))
              | inr other ↦ rw other refl
            ])
    ]

    Reached-enqueue_at :
        (id j : Text) (queues : Queues A)
        → WithinCapacity queues
        → Reached raw (id == j) (lookup j queues) (lookup j (enqueue_at drained raw id queues))
    Reached-enqueue_at id j queues few = elim (Bool-cases (id == j)) [
      | inl same ↦
          rw (lookup-enqueue_at id j queues, same) (Reached-enqueue j (lookup j queues) (few j))
      | inr other ↦ rw (lookup-enqueue_at id j queues, other) refl
    ]

    few_sent :
        (id : Text) (o : Option (List A)) (out : List A)
        → ((out : List A) → o ≡ some out → length out ≤ client_send_queue)
        → Option.map (sent id) o ≡ some out
        → length out ≤ client_send_queue
    few_sent id none out few e = absurd (ground (arith, e))
    few_sent id (some before) out few e =
        let (front, here, k) = at_end id before (few before refl) in
        let same : sent id before ≡ out = ground (arith, e) in rw (← same) (rw here k)

    enqueue_at-WithinCapacity :
        (id : Text) (queues : Queues A)
        → WithinCapacity queues
        → WithinCapacity (enqueue_at drained raw id queues)
    enqueue_at-WithinCapacity id queues few j out at = elim (Bool-cases (id == j)) [
      | inl same ↦
          few_sent j (lookup j queues) out (few j) (rw (lookup-enqueue_at id j queues, same) at at)
      | inr other ↦ few j out (rw (lookup-enqueue_at id j queues, other) at at)
    ]

    -- After a message to all of a list of clients, who may be named more than once.
    pub lookup-send_to_all :
        (ids : List Text) (queues : Queues A) (j : Text)
        → WithinCapacity queues
        → Reached raw
            (contains j ids)
            (lookup j queues)
            (lookup j (send_to_all drained raw ids queues))
    unfolding send_to_all contains
    lookup-send_to_all [] queues j few = refl
    lookup-send_to_all (id ∷ ids) queues j few =
        Reached-then raw (id == j) (contains j ids) _ _ _ (Reached-enqueue_at id j queues few) (
          lookup-send_to_all ids (enqueue_at drained raw id queues) j
            (enqueue_at-WithinCapacity id queues few))
