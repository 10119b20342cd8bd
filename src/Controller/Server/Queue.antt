-- ===== src/Controller/Server/Queue.antt =====
-- internal/controller/server.go: enqueue of wsClient, which drops the oldest message of a full queue.
-- While it runs, the write loop may receive from the queue.
use home_bench.Base.{
  ℕ, zero, suc, ◌-◌, ◌≤◌, ◌<◌, ◌≡◌, refl, ap, ◌∙◌, inl, inr, Bool, true, false, List, [], ◌∷◌, ◌++◌,
  if◌then◌else◌, Bool-cases, length, length-append, drop, ltb, arith,
}

-- clientSendQueue
abbrev pub client_send_queue : ℕ
client_send_queue = 64

module _ {A : Type 0} where
  -- `select { case c.out <- raw: ... default: }`
  unfoldable pub try_send : A → List A → List A × Bool
  try_send raw out =
      if ltb (length out) client_send_queue then (out ++ (raw ∷ []), true) else (out, false)

  -- `select { case <-c.out: default: }`
  unfoldable pub drop_oldest : List A → List A
  drop_oldest out = drop 1 out

  -- enqueue, and whether the message is in the queue; `before` and `after` are what others do to the
  -- queue before the oldest is dropped and after it.
  unfoldable pub enqueue : A → (List A → List A) → (List A → List A) → List A → List A × Bool
  unfolding try_send drop_oldest
  enqueue raw before after out =
      let first = try_send raw out in
      if first.1 then first else try_send raw (after (drop_oldest (before out)))

  drop-nil : (n : ℕ) → drop {A = A} n [] ≡ []
  drop-nil zero = refl
  drop-nil (suc n) = refl

  -- The messages that are gone are the first ones.
  drop-append_one :
      (n : ℕ) (x : A) (xs : List A)
      → (j : ℕ) × (j ≤ length xs) × (drop n xs ++ (x ∷ []) ≡ drop j (xs ++ (x ∷ []))) × (j ≤ n)
  drop-append_one zero x xs = (0, omega arith, refl, omega arith)
  drop-append_one (suc n) x [] = (0, omega arith, refl, omega arith)
  drop-append_one (suc n) x (y ∷ xs) =
      let (j, h, e, k) = drop-append_one n x xs in (suc j, omega (arith, h), e, omega (arith, k))

  drop-drop : (n m : ℕ) (xs : List A) → (k : ℕ) × (drop m (drop n xs) ≡ drop k xs)
  drop-drop zero m xs = (m, refl)
  drop-drop (suc n) m [] = (0, drop-nil m)
  drop-drop (suc n) m (x ∷ xs) = let (k, e) = drop-drop n m xs in (suc k, e)

  length-drop : (n : ℕ) (xs : List A) → length (drop n xs) ≡ length xs - n
  length-drop zero xs = omega arith
  length-drop (suc n) [] = omega arith
  length-drop (suc n) (x ∷ xs) = omega (arith, length-drop n xs)

  -- However many messages the write loop receives meanwhile: enqueue leaves the new message at the end
  -- of the queue, behind the latest ones of those that were in it, and the queue holds no more than
  -- clientSendQueue. A fresh command is never dropped, and only the oldest ones are.
  pub enqueue_lem :
      (raw : A) (m n : ℕ) (out : List A)
      → length out ≤ client_send_queue
      → (j : ℕ) × (j ≤ length out)
        × (enqueue raw (drop m) (drop n) out ≡ (drop j (out ++ (raw ∷ [])), true))
        × (length (enqueue raw (drop m) (drop n) out).0 ≤ client_send_queue)
  unfolding enqueue try_send drop_oldest
  enqueue_lem raw m n out few = elim (Bool-cases (ltb (length out) client_send_queue)) [
    | inl room ↦ rw room (0, omega arith, refl, ground (arith, room, length-append out (raw ∷ [])))
    | inr full ↦
        let left = drop n (drop 1 (drop m out)) in
        let shorter : length left < client_send_queue = omega (
          arith,
          few,
          full_lem (length out) full,
          length-drop n (drop 1 (drop m out)),
          length-drop 1 (drop m out),
          length-drop m out,
        ) in
        let room : ltb (length left) client_send_queue ≡ true = ground (arith, shorter) in
        let (k, e) = drop-drop m 1 out in
        let (l, e') = drop-drop k n out in
        let (j, h, e'', _) = drop-append_one l raw out in
        let same : left ++ (raw ∷ []) ≡ drop j (out ++ (raw ∷ [])) =
          ap (λ xs. drop n xs ++ (raw ∷ [])) e ∙ ap (λ xs. xs ++ (raw ∷ [])) e' ∙ e'' in
        rw (full, room)
          (j, h, ap (λ xs. (xs, true)) same, omega (arith, shorter, length-append left (raw ∷ [])))
  ]
    where
      full_lem : (k : ℕ) → ltb k client_send_queue ≡ false → client_send_queue ≤ k
      full_lem k h = ground (arith, h)
