-- ===== src/Client/Pace.antt =====
-- internal/client/worker.go: the shape of the loops that work at a rate until a deadline. What a turn
-- reads of the clock and of the context is an argument.
use home_bench.Base.{
  ℕ, suc, length, Bool, List, [], ◌∷◌, Option, none, some, Option-cases, if◌then◌else◌, if_elim,
  All, inl, inr,
}

-- How a phase returns: nil at the end of its time, or the context's error.
pub data Exit : Type 0 where
  in_time stopped : Exit

pub record Clock (F : Type 0) : Type 0 where
  pub past_deadline : Bool
  pub cancelled : Bool
  pub elapsed : F  -- in seconds
  pub sleep_cancelled : Bool  -- sleepCtx returns an error

module _ {F S : Type 0} where
  -- sleepCtx, and on with the loop
  abbrev pub sleeps : Clock F → S → S × Option Exit
  sleeps c s = (s, if c.sleep_cancelled then some stopped else none)

  -- The head of a turn: the deadline, the context, and a sleep where the work is ahead of its rate.
  unfoldable pub paced : Clock F → Bool → S → S × Option Exit → S × Option Exit
  paced c ahead s working =
      if c.past_deadline
      then (s, some in_time)
      else if c.cancelled
      then (s, some stopped)
      else if ahead
      then sleeps c s
      else working

  -- What holds of the state, and after the work, holds after the turn.
  pub paced_elim {κ} :
      (P : S → Type κ) (c : Clock F) (ahead : Bool) (s : S) (working : S × Option Exit)
      → P s
      → P working.0
      → P (paced c ahead s working).0
  unfolding paced
  paced_elim P c ahead s working p q =
      if_elim (λ (r : S × Option Exit). P r.0) c.past_deadline (λ _. p)
        (λ _.
          if_elim (λ (r : S × Option Exit). P r.0) c.cancelled (λ _. p)
            (λ _. if_elim (λ (r : S × Option Exit). P r.0) ahead (λ _. p) (λ _. q)))

module _ {T S : Type 0} where
  -- The turns of a loop, until it returns. With no result, it is still under way after them.
  unfoldable pub turns : (T → S → S × Option Exit) → List T → S → S × Option Exit
  turns turn [] s = (s, none)
  turns turn (t ∷ ts) s =
      let later = turns turn ts (turn t s).0 in
      elim (turn t s).1 [ none ↦ later | some exit ↦ ((turn t s).0, some exit) ]

  -- What each turn keeps holds after the loop.
  pub turns_elim {κ μ} :
      (P : S → Type κ) (Q : T → Type μ) (turn : T → S → S × Option Exit)
      → ((t : T) (s : S) → Q t → P s → P (turn t s).0)
      → (ts : List T) (s : S) → All Q ts
      → P s
      → P (turns turn ts s).0
  unfolding turns
  turns_elim P Q turn keep [] s q p = p
  turns_elim P Q turn keep (t ∷ ts) s q p = elim (Option-cases (turn t s).1) [
    | inl e ↦ rw (turns, e) (turns_elim P Q turn keep ts (turn t s).0 q.1 (keep t s q.0 p))
    | inr (x, e) ↦ rw (turns, e) (keep t s q.0 p)
  ]

  -- What each turn keeps with one turn less to go holds after the loop, for some number of turns to go.
  pub turns_counted {κ μ} :
      (P : ℕ → S → Type κ) (Q : T → Type μ) (turn : T → S → S × Option Exit)
      → ((n : ℕ) (t : T) (s : S) → Q t → P (suc n) s → P n (turn t s).0)
      → (ts : List T) (s : S) → All Q ts
      → P (length ts) s
      → (n : ℕ) × P n (turns turn ts s).0
  unfolding turns
  turns_counted P Q turn keep [] s q p = (0, p)
  turns_counted P Q turn keep (t ∷ ts) s q p = elim (Option-cases (turn t s).1) [
    | inl e ↦
        rw (turns, e) (turns_counted P Q turn keep ts (turn t s).0 q.1 (keep (length ts) t s q.0 p))
    | inr (x, e) ↦ rw (turns, e) (length ts, keep (length ts) t s q.0 p)
  ]
