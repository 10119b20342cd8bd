-- ===== src/Controller/ConfigFile/Restart.antt =====
-- A controller that starts with the file that another one saved: SetConfig of
-- internal/controller/orchestrator.go, internal/controller/configfile.go, and NewOrchestrator.
use home_bench.Base.{
  ◌≡◌, refl, sym, ap, ◌∙◌, true, false, [], ◌∷◌, ◌++◌, Option, none, some, Text, ◌==◌, nat_eq,
  list_eq, arith, Float64,
}
use home_bench.Protocol.Phase.{Phase}
use home_bench.Protocol.Config.{Config, phase_disabled, normalize_disabled_phases}
use home_bench.Protocol.Config.Normalize.{normalize_idempotent}
use home_bench.Controller.Registry.{Registry}
use home_bench.Controller.Orchestrator.State.{Orchestrator, broadcast, save_config, config_msg}
use home_bench.Controller.Orchestrator.Settings.{filled_config, set_config}
use home_bench.Controller.Orchestrator.Lifecycle.{new_orchestrator}
use home_bench.Controller.ConfigFile.{
  Files, Calls, last_state, newline, save_config_file, use_loaded, initial_config,
}
use home_bench.Controller.ConfigFile.Atomic.{load-save_config_file}

-- All of a configuration but its disabled phases.
abbrev pub but_phases : {F : Type 0} → Config F → Config F
but_phases c = record c { disabled_phases = [] }

module _ {F : Type 0} ⦃f : Float64 F⦄ (encode : Config F → Option Text)
    (decode : Text → Option (Config F)) where
  -- What SetConfig stores where it returns no error, and has saved where a path is configured.
  set_config_stores :
      (c : Config F) (o : Orchestrator F)
      → (o.config_path == []) ≡ false
      → (set_config c o).error ≡ none
      → ((set_config c o).after.cfg ≡ filled_config c)
        × ((set_config c o).effects
            ≡ broadcast (config_msg (filled_config c))
              ∷ save_config o.config_path (filled_config c)
              ∷ [])
  unfolding set_config
  set_config_stores c o named fine = ground (arith, named, fine)

  phases-filled :
      (c : Config F) (p : Phase)
      → phase_disabled (normalize_disabled_phases (filled_config c)) p
        ≡ phase_disabled (filled_config c) p
  unfolding filled_config
  phases-filled c p = normalize_idempotent _ p

  -- Where a path is configured, SetConfig returns no error, SaveConfigFile returns nil for what it
  -- stores, and the decoder reads back what the encoder writes for that: SetConfig broadcasts and saves what
  -- it stores, and a controller that starts again and can read the file has the same phases disabled, and
  -- the rest of the configuration is the same.
  pub set_config_survives :
      (c : Config F) (o : Orchestrator F) (disk : Files) (calls again : Calls) (r : Registry)
      (p : Phase)
      → (o.config_path == []) ≡ false
      → (set_config c o).error ≡ none
      → (save_config_file encode decode calls o.config_path (set_config c o).after.cfg disk).ok
        ≡ true
      → ((text : Text)
          → encode (set_config c o).after.cfg ≡ some text
          → decode (text ++ newline) ≡ some (set_config c o).after.cfg)
      → let saved =
          last_state disk
            (save_config_file encode decode calls o.config_path
              (set_config c o).after.cfg
              disk).states in
        let restarted =
          new_orchestrator
            (initial_config encode decode true again o.config_path saved).0
            r
            o.config_path in
        ((set_config c o).effects
          ≡ broadcast (config_msg (set_config c o).after.cfg)
            ∷ save_config o.config_path (set_config c o).after.cfg
            ∷ [])
        × (phase_disabled restarted.cfg p ≡ phase_disabled (set_config c o).after.cfg p)
        × (but_phases restarted.cfg ≡ but_phases (set_config c o).after.cfg)
  unfolding initial_config use_loaded new_orchestrator normalize_disabled_phases
  set_config_survives c o disk calls again r p named fine ok reads =
      let (stored, effects) = set_config_stores c o named fine in
      let loads =
        load-save_config_file o.config_path disk encode decode calls (set_config c o).after.cfg ok
          reads in
      let cfg = (set_config c o).after.cfg in
      let disk' =
        last_state disk (save_config_file encode decode calls o.config_path cfg disk).states in
      let read : (initial_config encode decode true again o.config_path disk').0 ≡ cfg =
        rw (initial_config, named, loads) refl in
      rw read (
        effects
            ∙ ap (λ d. broadcast (config_msg d) ∷ save_config o.config_path d ∷ []) (sym stored),
        rw stored (phases-filled c p),
        refl,
      )
