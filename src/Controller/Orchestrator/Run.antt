-- ===== src/Controller/Orchestrator/Run.antt =====
-- The goroutine of a run (internal/controller/orchestrator.go): run and what it calls. A call that
-- may end the run (it waits, or it prepares a shared tree) is numbered, and `ends n` says how the
-- n-th of these comes out: the code cannot know. The code's early returns are `going ≡ false`. The
-- configuration cannot change while a run is under way, so `o.Config()` is the run's own `cfg`.
-- Durations are nanoseconds, and rates are of the parameter F.
pub mod Plan
pub mod Stages
pub mod Visits
pub mod Wait
pub mod Completion
pub mod Failure
mod Tests
use home_bench.Base.{
  ℕ, ◌+◌, ◌*◌, Bool, true, false, not, ◌&&◌, ◌||◌, List, [], ◌∷◌, ◌++◌, Text, codes, ◌==◌, nat_eq,
  list_eq, if◌then◌else◌, trim_space, decimal, Float64, ltb,
}
use home_bench.Protocol.Phase.{Phase, phase_label}
use home_bench.Protocol.Config.{
  Config, phase_selected, software_enabled, git_clone_enabled, untar_enabled,
}
use home_bench.Protocol.Interval.{second}
use home_bench.Controller.Orchestrator.State.{PhaseCommand}

-- How a blocking call ends: it goes on, its context is cancelled, or it fails by itself.
pub data Reply : Type 0 where
  done cancelled failed : Reply

pub data Action (F : Type 0) : Type 0 where
  shows : Phase → ℕ → Text → Action F
  sends : PhaseCommand F → Action F
  unpacks : Config F → Action F
  bundles : Config F → Action F
  downloads : Config F → Action F
  cleans : Bool → List Text → Action F  -- whether the run waits for it; the prefixes

-- What a run has done so far, the number of the next blocking call, and whether it goes on.
pub record Progress (F : Type 0) : Type 0 where
  pub log : List (Action F)
  pub stage : ℕ
  pub going : Bool
  pub last : Reply

abbrev pub ramp_percents : List ℕ
ramp_percents = 10 ∷ 20 ∷ 30 ∷ 40 ∷ 50 ∷ 60 ∷ 70 ∷ 80 ∷ 90 ∷ 100 ∷ []

abbrev bandwidth_file_size : ℕ
bandwidth_file_size = 64 * 1024 * 1024

abbrev create_file_size : ℕ
create_file_size = 4096

abbrev riops_file_size : ℕ
riops_file_size = 1073741824

abbrev riops_duration_steps : ℕ
riops_duration_steps = 5

abbrev software_startup_cold_timeout : ℕ
software_startup_cold_timeout = 600 * second

abbrev software_startup_warm_timeout : ℕ
software_startup_warm_timeout = 300 * second

abbrev software_op_timeout : ℕ
software_op_timeout = 1800 * second

abbrev final_cleanup_timeout : ℕ
final_cleanup_timeout = 1800 * second

-- The prefixes whose software trees cleanupSoftware removes.
unfoldable pub trimmed_prefixes : List Text → List Text
trimmed_prefixes [] = []
trimmed_prefixes (p ∷ ps) =
    let rest = trimmed_prefixes ps in if trim_space p == [] then rest else trim_space p ∷ rest

unfoldable pub is_done : Reply → Bool
is_done done = true
is_done _ = false

step_text : Phase → ℕ → Text
step_text phase pct = phase_label phase ++ (codes " @ " ++ (decimal pct ++ codes "%"))

module _ {F : Type 0} where
  -- What happens unless the run has returned.
  unfoldable pub acts : List (Action F) → Progress F → Progress F
  acts actions r = if r.going then record r { log = r.log ++ actions } else r

  -- The same with a blocking call at its end.
  unfoldable pub blocks : (ℕ → Reply) → List (Action F) → Progress F → Progress F
  unfolding is_done
  blocks ends actions r =
      if r.going
      then record {
        log = r.log ++ actions;
        stage = r.stage + 1;
        going = is_done (ends r.stage);
        last = ends r.stage;
      }
      else r

  unfoldable pub when : Bool → (Progress F → Progress F) → Progress F → Progress F
  when b f r = if b then f r else r

  module _ ⦃f : Float64 F⦄ where
    -- perClient
    unfoldable pub per_client : F → ℕ → F
    per_client global n = f.fdiv global (f.of_ℕ (if ltb n 1 then 1 else n))

    -- PhaseStepDuration
    unfoldable pub phase_step_duration : Config F → ℕ
    phase_step_duration c =
        if f.fle c.phase_step_seconds (f.of_ℕ 0)
        then 30 * second
        else f.to_ℕ (f.fmul c.phase_step_seconds (f.of_ℕ second))

    -- The command of a ramp step.
    ramp_command : Config F → Phase → ℕ → F → F → ℕ → ℕ → PhaseCommand F
    ramp_command c phase pct rate read_rate file_size step = record {
      phase = phase;
      percent = pct;
      duration = step;
      rate = rate;
      read_rate = read_rate;
      test_name = c.test_name;
      file_size = file_size;
      package_url = [];
      startup_command = [];
      git_clone_url = [];
      untar_url = [];
      force_cleanup = false;
    }

    -- sendAndWait
    unfoldable pub send_and_wait :
        (ℕ → Reply) → Config F → Phase → ℕ → F → F → ℕ → ℕ → Progress F → Progress F
    unfolding ramp_command step_text
    send_and_wait ends c phase pct rate read_rate file_size step = blocks ends (
        shows phase pct (step_text phase pct)
        ∷ sends (ramp_command c phase pct rate read_rate file_size step)
        ∷ [])

    -- The loop of runRamp2 over the percentages.
    unfoldable pub ramp_steps :
        (ℕ → Reply) → Config F → Phase → List ℕ → F → F → ℕ → ℕ → Progress F → Progress F
    ramp_steps ends c phase [] write_base read_base file_size step r = r
    ramp_steps ends c phase (pct ∷ pcts) write_base read_base file_size step r =
        ramp_steps ends c phase pcts write_base read_base file_size step (
          send_and_wait ends c phase pct (f.fdiv (f.fmul write_base (f.of_ℕ pct)) (f.of_ℕ 100))
            (f.fdiv (f.fmul read_base (f.of_ℕ pct)) (f.of_ℕ 100)) file_size step r)

    -- runRamp2
    unfoldable pub run_ramp2 :
        (ℕ → Reply) → Config F → Phase → F → F → ℕ → ℕ → Progress F → Progress F
    run_ramp2 ends c phase = ramp_steps ends c phase ramp_percents

    -- The loop of runRamp over the percentages, without a read rate.
    unfoldable pub ramp_steps1 :
        (ℕ → Reply) → Config F → Phase → List ℕ → F → ℕ → ℕ → Progress F → Progress F
    ramp_steps1 ends c phase [] base file_size step r = r
    ramp_steps1 ends c phase (pct ∷ pcts) base file_size step r =
        ramp_steps1 ends c phase pcts base file_size step (
          send_and_wait ends c phase pct (f.fdiv (f.fmul base (f.of_ℕ pct)) (f.of_ℕ 100)) (f.of_ℕ 0)
            file_size step r)

    -- runRamp
    unfoldable pub run_ramp : (ℕ → Reply) → Config F → Phase → F → ℕ → ℕ → Progress F → Progress F
    run_ramp ends c phase = ramp_steps1 ends c phase ramp_percents
