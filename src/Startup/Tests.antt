-- ===== src/Startup/Tests.antt =====
-- A start, a shutdown and the next start of src/main.rs, at concrete inputs.
use tei_manager.Base.{
  ℕ, ◌≡◌, refl, String, Bool, true, false, Option, none, some, arith, Result, ok, err, ap, ◌∙◌,
  str_eq_iff, Permᴰ,
}
use tei_manager.Base.Dict
use tei_manager.Config.{ManagerConfig, default_manager_config, default_state_file}
use tei_manager.Config.Load.{Source}
use tei_manager.Config.Load
use tei_manager.Config.Validate.{Files, validate}
use tei_manager.Config.Validate
use tei_manager.Instance
use tei_manager.Instance.System
use tei_manager.Instance.System.{SystemState}
use tei_manager.Instance.Tests.{toy_manager, toy_runtime}
use tei_manager.Registry
use tei_manager.Registry.World
use tei_manager.Registry.Explicit.{configs}
use tei_manager.Health.{default_monitor_config}
use tei_manager.Health.Tests.{refused}
use tei_manager.Pool.Tests.{one_connection}
use tei_manager.Auth.{AuthError, AuthMessage}
use tei_manager.State
use tei_manager.State.{Managed}
use tei_manager.State.Storage.{Disk, file_storage}
use tei_manager.State.Storage
use tei_manager.State.Tests.{smooth, toml, toml-ReadsBack, toml_writes, one_saved, instantly}
use tei_manager.Manager.{registry_of, Run}
use tei_manager.Startup.{
  Cli, Outside, Running, start_up, shut_down, first_instances, prepare, build_auth_manager,
}
use tei_manager.Startup
use tei_manager.Startup.Sound.{IsSound}
use tei_manager.Startup.Cycle.{parts_of, stopped_at, reachable-IsSound, restart_keeps}

abbrev restoring : ManagerConfig
restoring = record default_manager_config { auto_restore_on_restart = true }

abbrev outside : Outside
outside = record {
  path_of = λ s. default_state_file;
  source = record {
    env = λ name. none;
    read_to_string = λ path. some "config";
    parse_toml = λ text. some restoring;
  };
  files = record { file_exists = λ p. true; dir_exists = λ d. true; create_dir_all = λ d. false };
  make_provider = λ mtls. err (AuthError.internal (AuthMessage.text "none"));
}

abbrev cli : Cli
cli = record { config = some default_state_file; port = none }

abbrev no_port : ℕ → Bool
no_port port = false

abbrev saved : Disk
saved path = some "saved"

abbrev began : Managed (SystemState ℕ) Disk
began =
    (State.restore_with_options (file_storage smooth true) toml (Startup.state_manager restoring)
      toy_manager no_port 2 instantly true
      (Startup.fresh (file_storage smooth true) toml toy_manager no_port 2 instantly restoring
        toy_runtime saved)).1

abbrev running : Running (SystemState ℕ) Disk
running = record { config = restoring; auth = none; managed = began }

started :
    start_up
      (file_storage smooth true)
      toml
      toy_manager
      no_port
      2
      instantly
      outside
      cli
      toy_runtime
      saved
    ≡ ok running
unfolding start_up prepare build_auth_manager first_instances Load.load Load.base_config
    Load.apply_env Load.override validate Validate.check_capacity Validate.check_instances
    Validate.check_state_dir Validate.check_auth State.restore_with_options State.restore_guarded
    State.restore_loaded State.load State.read_text Storage.load
started = refl

reachable-IsSound_example : IsSound restoring (registry_of (parts_of running one_connection))
reachable-IsSound_example =
    reachable-IsSound toy_manager smooth toml toml-ReadsBack outside cli refused
      default_monitor_config no_port 2 instantly toy_runtime saved running one_connection
      (parts_of running one_connection) started (omega arith)
      (Run.here (parts_of running one_connection))

abbrev ended : Result State.StateError (Unit {0}) × Running (SystemState ℕ) Disk
ended =
    shut_down (file_storage smooth true) toml toy_manager no_port 4
      (stopped_at running (parts_of running one_connection))

one_left : State.saved_state 4 began.world.registry ≡ one_saved
unfolding State.saved_state Registry.list Registry.new_registry State.restore_with_options
    State.restore_guarded State.restore_loaded State.restore_instances State.restore_loop
    State.restore_one State.record_round State.load State.read_text Storage.load World.add_instance
    Registry.add Dict.contains_key Registry.assign_port Registry.check_conflict Registry.check_max
    Registry.assign_prometheus_port Dict.insert Registry.find_conflict Instance.start System.spawn
one_left = refl

written :
    (text : Option String) (disk : Disk)
    → text ≡ some "saved"
    → (State.save_text
        (file_storage smooth true)
        toml
        (Startup.state_manager restoring)
        text
        disk).0
      ≡ ok tt
unfolding State.save_text Storage.save
written none disk e = absurd (ground (arith, e))
written (some text) disk e = refl

ended_ok : ended.0 ≡ ok tt
unfolding shut_down State.save
ended_ok =
    written (toml.to_string_pretty (State.saved_state 4 began.world.registry)) began.disk
      (ap toml.to_string_pretty one_left ∙ toml_writes)

restart_keeps_example :
    (s₂ : Running (SystemState ℕ) Disk) × (start_up
        (file_storage smooth true)
        toml
        toy_manager
        no_port
        9
        instantly
        outside
        cli
        toy_runtime
        ended.1.managed.disk
      ≡ ok s₂)
    × Permᴰ (configs began.world.registry) (configs s₂.managed.world.registry)
restart_keeps_example =
    restart_keeps toy_manager smooth toml toml-ReadsBack outside cli refused default_monitor_config
      no_port 2 instantly toy_runtime saved running one_connection (parts_of running one_connection)
      started (omega arith) (Run.here (parts_of running one_connection)) 4 no_port 9 instantly
      toy_runtime (λ e. ground (arith, str_eq_iff "toml" "tmp")) refl ended_ok
