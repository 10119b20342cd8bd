-- ===== src/Controller/Orchestrator/Run/Stages.antt =====
-- run (internal/controller/orchestrator.go): the stages of a run in their order, and the text with
-- which it finishes.
use home_bench.Base.{
  ℕ, ◌*◌, Bool, true, false, ◌&&◌, ◌||◌, List, [], ◌∷◌, ◌++◌, Text, codes, if◌then◌else◌, Float64,
}
use home_bench.Protocol.Phase.{Phase, phase_label}
use home_bench.Protocol.Config.{
  Config, phase_selected, software_enabled, git_clone_enabled, untar_enabled,
}
use home_bench.Controller.Orchestrator.State.{PhaseCommand}
use home_bench.Controller.Orchestrator.Lifecycle.{em_dash}
use home_bench.Controller.Orchestrator.Run.{
  Reply, done, cancelled, shows, sends, unpacks, bundles, downloads, cleans, Progress,
  bandwidth_file_size, create_file_size, riops_file_size, riops_duration_steps,
  software_startup_cold_timeout, software_startup_warm_timeout, software_op_timeout,
  final_cleanup_timeout, trimmed_prefixes, acts, blocks, when, per_client, phase_step_duration,
  send_and_wait, run_ramp, run_ramp2,
}

is_cancelled : Reply → Bool
is_cancelled cancelled = true
is_cancelled _ = false

module _ {F : Type 0} where
  -- The run's deferred function: the text that it passes to finish. `has_failed` is whether there is a
  -- fail message, `late` whether the context is cancelled after the last call that could notice.
  unfoldable pub finish_text : Bool → Bool → Progress F → Text
  unfolding is_cancelled
  finish_text has_failed late r =
      if has_failed
      then codes "FAILED RUN"
      else if late || is_cancelled r.last
      then codes "Stopped"
      else codes "Completed"

  -- The stages one after the other.
  unfoldable pub through : List (Progress F → Progress F) → Progress F → Progress F
  through [] r = r
  through (s ∷ stages) r = through stages (s r)

  -- The run at its start.
  abbrev pub fresh : Progress F
  fresh = record { log = []; stage = 0; going = true; last = done }

  module _ (c : Config F) where
    unfoldable pub run_software : Bool
    run_software = software_enabled c && phase_selected c Phase.software_cold

    unfoldable pub run_git : Bool
    run_git = git_clone_enabled c && phase_selected c Phase.git_clone

    unfoldable pub run_untar : Bool
    run_untar = untar_enabled c && phase_selected c Phase.untar

  module _ ⦃f : Float64 F⦄ (ends : ℕ → Reply) (c : Config F) where
    software_command : Phase → ℕ → PhaseCommand F
    software_command phase timeout = record {
      phase = phase;
      percent = 100;
      duration = timeout;
      rate = f.of_ℕ 0;
      read_rate = f.of_ℕ 0;
      test_name = c.test_name;
      file_size = 0;
      package_url = c.package_url;
      startup_command = c.startup_command;
      git_clone_url = c.git_clone_url;
      untar_url = c.untar_url;
      force_cleanup = false;
    }

    cleanup_command : PhaseCommand F
    cleanup_command = record {
      phase = Phase.final_delete;
      percent = 100;
      duration = final_cleanup_timeout;
      rate = f.of_ℕ 0;
      read_rate = f.of_ℕ 0;
      test_name = c.test_name;
      file_size = 0;
      package_url = [];
      startup_command = [];
      git_clone_url = [];
      untar_url = [];
      force_cleanup = true;
    }

    -- runSoftwarePhase
    unfoldable pub run_software_phase : Phase → ℕ → Progress F → Progress F
    unfolding software_command
    run_software_phase phase timeout =
        blocks ends
          (shows phase 100 (phase_label phase) ∷ sends (software_command phase timeout) ∷ [])

    -- runControllerUnpack
    unfoldable pub run_controller_unpack : Progress F → Progress F
    run_controller_unpack =
        blocks ends
          (shows Phase.software_unpack 100 (phase_label Phase.software_unpack) ∷ unpacks c ∷ [])

    -- runControllerGitBundle
    unfoldable pub run_controller_git_bundle : Progress F → Progress F
    run_controller_git_bundle = blocks ends (
        shows Phase.git_clone 100
          (codes "Git Clone " ++ (em_dash ++ codes " preparing shared bundle"))
        ∷ bundles c
        ∷ [])

    -- runControllerUntarArchive
    unfoldable pub run_controller_untar_archive : Progress F → Progress F
    run_controller_untar_archive = blocks ends (
        shows Phase.untar 100 (codes "Untar " ++ (em_dash ++ codes " downloading shared archive"))
        ∷ downloads c
        ∷ [])

    -- cleanupSoftware and cleanupSoftwareAsync
    unfoldable pub cleanup_software : Bool → Progress F → Progress F
    cleanup_software waits = acts (cleans waits (trimmed_prefixes c.prefixes) ∷ [])

    -- sendFinalCleanup
    unfoldable pub send_final_cleanup : Progress F → Progress F
    unfolding cleanup_command
    send_final_cleanup = blocks ends (
        shows Phase.final_delete 100
          (codes "Final Delete " ++ (em_dash ++ codes " cleaning remaining"))
        ∷ sends cleanup_command
        ∷ [])

    -- The software phases: unpacked once by the controller, then a cold and a warm start.
    unfoldable pub software_stage : Progress F → Progress F
    software_stage r = cleanup_software (run_git c || run_untar c) (
        run_software_phase Phase.software_warm software_startup_warm_timeout (
          run_software_phase Phase.software_cold software_startup_cold_timeout
            (run_controller_unpack r)))

    -- `run` after the software phases, up to its deferred function, for n clients.
    unfoldable pub later_stages : ℕ → List (Progress F → Progress F)
    later_stages n =
        let create_rate = per_client c.file_creation_rate n in
        let delete_rate = per_client c.file_deletion_rate n in
        let write_bw = per_client c.file_write_bandwidth n in
        let read_bw = per_client c.file_read_bandwidth n in
        let step = phase_step_duration c in
        let riops_write =
          if f.flt (f.of_ℕ 0) c.random_write_iops
          then per_client c.random_write_iops n
          else f.of_ℕ 0 in
        let riops_read =
          if f.flt (f.of_ℕ 0) c.random_read_iops
          then per_client c.random_read_iops n
          else f.of_ℕ 0 in
        when (run_git c) (λ r.
          run_software_phase Phase.git_clone software_op_timeout (run_controller_git_bundle r))
        ∷ when (run_untar c) (λ r.
          run_software_phase Phase.untar software_op_timeout (run_controller_untar_archive r))
        ∷ when (run_git c || run_untar c) (cleanup_software false)
        ∷ when (phase_selected c Phase.create)
            (run_ramp ends c Phase.create create_rate create_file_size step)
        ∷ when (phase_selected c Phase.delete) (λ r.
          send_and_wait ends c Phase.delete 100 delete_rate (f.of_ℕ 0) 0 step
            (run_ramp ends c Phase.delete delete_rate 0 step r))
        ∷ when (phase_selected c Phase.write_bw)
            (run_ramp ends c Phase.write_bw write_bw bandwidth_file_size step)
        ∷ when (phase_selected c Phase.read_bw)
            (run_ramp ends c Phase.read_bw read_bw bandwidth_file_size step)
        ∷ when (phase_selected c Phase.read_write)
            (run_ramp2 ends c Phase.read_write write_bw read_bw bandwidth_file_size step)
        ∷ when (phase_selected c Phase.riops) (
            send_and_wait ends c Phase.riops 100 riops_write riops_read riops_file_size
              (step * riops_duration_steps))
        ∷ when (phase_selected c Phase.final_delete)
            (λ r. send_final_cleanup (run_ramp ends c Phase.final_delete delete_rate 0 step r))
        ∷ []

    unfoldable pub stages : ℕ → List (Progress F → Progress F)
    stages n = when (run_software c) software_stage ∷ later_stages n

    -- run
    unfoldable pub run : ℕ → Progress F
    run n = through (stages n) fresh
