-- ===== src/Controller/Orchestrator/Run/Plan.antt =====
-- What the goroutine of a run shows (internal/controller/orchestrator.go) against the plan of
-- ActivePhaseOrder: each combinator of the run, and each of its stages, goes through a script.
use mathlib.Core.List.{append-nil, append_assoc}
use home_bench.Base.{
  ℕ, ◌≡◌, refl, sym, ◌∙◌, ap, inl, inr, Bool, true, false, List, [], ◌∷◌, ◌++◌, arith,
  if◌then◌else◌, Bool-cases, Float64,
}
use home_bench.Protocol.Phase.{Phase}
use home_bench.Protocol.Config.{Config}
use home_bench.Controller.Orchestrator.Run.{
  Reply, done, Action, shows, Progress, acts, blocks, when, is_done, send_and_wait, ramp_steps,
  ramp_steps1,
}
use home_bench.Controller.Orchestrator.Run.Stages.{through}

-- A ramp shows its percentages.
abbrev pub ladder : Phase → List ℕ → List (Phase × ℕ)
ladder p [] = []
ladder p (pct ∷ pcts) = (p, pct) ∷ ladder p pcts

module _ {F : Type 0} where
  -- The phases and percentages that setPhase is called with.
  abbrev pub shown : List (Action F) → List (Phase × ℕ)
  shown [] = []
  shown (shows p pct text ∷ rest) = (p, pct) ∷ shown rest
  shown (a ∷ rest) = shown rest

  shown-append : (a b : List (Action F)) → shown (a ++ b) ≡ shown a ++ shown b
  shown-append [] b = refl
  shown-append (shows p pct text ∷ a) b = ap (◌∷◌ (p, pct)) (shown-append a b)
  shown-append (x ∷ a) b = shown-append a b

  -- After a part of the script that is whole if the run goes on.
  abbrev pub Shows : Progress F → Progress F → List (Phase × ℕ) → Type 0
  Shows r r' script =
      (part : List (Phase × ℕ)) × (rest : List (Phase × ℕ)) × (shown r'.log ≡ shown r.log ++ part)
      × (part ++ rest ≡ script)
      × (r'.going ≡ true → rest ≡ [])

  -- A part of the run goes through a script: it does nothing once the run has returned, it shows
  -- an initial part of the script otherwise, and it goes on if all calls do.
  pub record Follows (ends : ℕ → Reply) (s : Progress F → Progress F) (script : List (Phase × ℕ))
      : Type 0 where
    pub returned : (r : Progress F) → r.going ≡ false → s r ≡ r
    pub shows_part : (r : Progress F) → r.going ≡ true → Shows r (s r) script
    pub goes_on : ((n : ℕ) → ends n ≡ done) → (r : Progress F) → r.going ≡ true → (s r).going ≡ true

  module _ (ends : ℕ → Reply) where
    pub acts-Follows : (actions : List (Action F)) → Follows ends (acts actions) (shown actions)
    unfolding acts
    acts-Follows actions = record {
      returned = λ r h. ground arith;
      shows_part =
          λ r h. rw h (shown actions, [], shown-append r.log actions, append-nil _, λ _. refl);
      goes_on = λ all r h. ground arith;
    }

    pub blocks-Follows :
        (actions : List (Action F)) → Follows ends (blocks ends actions) (shown actions)
    unfolding blocks is_done
    blocks-Follows actions = record {
      returned = λ r h. ground arith;
      shows_part =
          λ r h. rw h (shown actions, [], shown-append r.log actions, append-nil _, λ _. refl);
      goes_on = λ all r h. rw (h, all r.stage) refl;
    }

    script_of_nothing : Follows ends (λ r. r) []
    script_of_nothing = record {
      returned = λ r h. refl;
      shows_part = λ r h. ([], [], sym (append-nil _), refl, λ _. refl);
      goes_on = λ all r h. h;
    }

    pub script_of_two :
        (s t : Progress F → Progress F) (x y : List (Phase × ℕ))
        → Follows ends s x
        → Follows ends t y
        → Follows ends (λ r. t (s r)) (x ++ y)
    script_of_two s t x y a b = record {
      returned = λ r h. rw (a.returned r h) (b.returned r h);
      shows_part = λ r h.
          let (part, rest, e, w, g) = a.shows_part r h in
          elim (Bool-cases (s r).going) [
            | inl k ↦
                let (part', rest', e', w', g') = b.shows_part (s r) k in
                let whole : part ≡ x =
                  sym (append-nil part) ∙ ap (λ l. part ++ l) (sym (g k)) ∙ w in
                (
                  part ++ part',
                  rest',
                  e' ∙ rw e (append_assoc (shown r.log) part part'),
                  append_assoc part part' rest' ∙ ap (λ l. part ++ l) w' ∙ ap (λ l. l ++ y) whole,
                  g',
                )
            | inr k ↦
                rw (b.returned (s r) k)
                  (part, rest ++ y, e, sym (append_assoc part rest y) ∙ ap (λ l. l ++ y) w, λ q. cc)
          ];
      goes_on = λ all r h. b.goes_on all (s r) (a.goes_on all r h);
    }

    when-Follows :
        (b : Bool) (s : Progress F → Progress F) (x : List (Phase × ℕ))
        → Follows ends s x
        → Follows ends (when b s) (if b then x else [])
    unfolding when
    when-Follows true s x h = h
    when-Follows false s x h = script_of_nothing

    pub send_and_wait-Follows :
        ⦃f : Float64 F⦄ (c : Config F) (p : Phase) (pct : ℕ) (rate read_rate : F) (size step : ℕ)
        → Follows ends (send_and_wait ends c p pct rate read_rate size step) ((p, pct) ∷ [])
    unfolding send_and_wait
    send_and_wait-Follows c p pct rate read_rate size step = blocks-Follows _

    pub ramp_steps-Follows :
        ⦃f : Float64 F⦄ (c : Config F) (p : Phase) (pcts : List ℕ) (w r : F) (size step : ℕ)
        → Follows ends (ramp_steps ends c p pcts w r size step) (ladder p pcts)
    unfolding ramp_steps
    ramp_steps-Follows c p [] w r size step = script_of_nothing
    ramp_steps-Follows c p (pct ∷ pcts) w r size step =
        script_of_two _ _ ((p, pct) ∷ []) _ (send_and_wait-Follows c p pct _ _ size step)
          (ramp_steps-Follows c p pcts w r size step)

    pub ramp_steps1-Follows :
        ⦃f : Float64 F⦄ (c : Config F) (p : Phase) (pcts : List ℕ) (base : F) (size step : ℕ)
        → Follows ends (ramp_steps1 ends c p pcts base size step) (ladder p pcts)
    unfolding ramp_steps1
    ramp_steps1-Follows c p [] base size step = script_of_nothing
    ramp_steps1-Follows c p (pct ∷ pcts) base size step =
        script_of_two _ _ ((p, pct) ∷ []) _ (send_and_wait-Follows c p pct _ _ size step)
          (ramp_steps1-Follows c p pcts base size step)

    -- One stage before the others, if its condition holds.
    pub script_of_stage :
        {s : Progress F → Progress F} {x y : List (Phase × ℕ)} (b : Bool)
        (rest : List (Progress F → Progress F))
        → Follows ends s x
        → Follows ends (through rest) y
        → Follows ends (through (when b s ∷ rest)) ((if b then x else []) ++ y)
    unfolding through
    script_of_stage {s} {x} {y} b rest h k =
        script_of_two (when b s) (through rest) _ y (when-Follows b s x h) k

    pub script_of_end : Follows ends (through []) []
    unfolding through
    script_of_end = script_of_nothing
