-- ===== src/Startup.antt =====
-- src/main.rs: how the parts are put together at start-up, and what a shutdown leaves. The servers,
-- logging and the discovery of models are left out; reading files, the environment and the making of
-- the mTLS provider are arguments.
pub mod Sound
pub mod Starts
pub mod Cycle
mod Tests
use tei_manager.Base.{
  ℕ, String, Bool, true, false, Option, none, some, List, [], ◌∷◌, Result, ok, err, map_err,
  and_then, ok_or, str_eq, ◌||◌, if◌then◌else◌,
}
use tei_manager.Config.{ManagerConfig, MtlsConfig, InstanceConfig, FilePath, Timestamp}
use tei_manager.Config.Load.{Source, LoadError, load}
use tei_manager.Config.Validate.{Files, ConfigError, validate}
use tei_manager.Instance.{ProcessManager, Runtime, TeiInstance, start, stop}
use tei_manager.Registry.{new_registry, list}
use tei_manager.Registry.World.{World, add_instance}
use tei_manager.Auth.{AuthProvider, AuthManager, AuthError}
use tei_manager.State.{
  StorageBackend, Toml, StateManager, StateError, Managed, RestoreReport, save,
  restore_with_options,
}

-- Why the manager does not start.
pub data StartError : Type 0 where
  load_failed : LoadError → StartError
  invalid : ConfigError → StartError
  no_mtls_config : StartError
  mtls_failed : AuthError → StartError
  no_providers : StartError
  restore_failed : StateError → StartError

pub record Cli : Type 0 where
  pub config : Option FilePath
  pub port : Option ℕ

-- The override of the API's port.
abbrev pub override_port : Option ℕ → ManagerConfig → ManagerConfig
override_port none config = config
override_port (some port) config = record config { api_port = port }

abbrev names_mtls : List String → Bool
names_mtls [] = false
names_mtls (p ∷ ps) = str_eq p "mtls" || names_mtls ps

abbrev mtls_providers :
    Option MtlsConfig
    → (MtlsConfig → Result AuthError AuthProvider)
    → Result StartError (List AuthProvider)
mtls_providers none make_provider = err StartError.no_mtls_config
mtls_providers (some mtls) make_provider =
    and_then (map_err StartError.mtls_failed (make_provider mtls)) λ provider. ok (provider ∷ [])

abbrev manager_over : List AuthProvider → Result StartError (Option AuthManager)
manager_over [] = err StartError.no_providers
manager_over (p ∷ ps) = ok (some (record { providers = p ∷ ps }))

-- `build_auth_manager`.
unfoldable pub build_auth_manager :
    (MtlsConfig → Result AuthError AuthProvider)
    → ManagerConfig
    → Result StartError (Option AuthManager)
build_auth_manager make_provider config =
    if config.auth.enabled
    then and_then
        (if names_mtls config.auth.providers
          then mtls_providers config.auth.mtls make_provider
          else ok [])
        manager_over
    else ok none

-- What start-up asks of the file system, the environment and the mTLS provider.
pub record Outside : Type 0 where
  pub path_of : String → FilePath
  pub source : Source
  pub files : Files
  pub make_provider : MtlsConfig → Result AuthError AuthProvider

-- The configuration, checked, and the authentication.
unfoldable pub prepare : Outside → Cli → Result StartError (ManagerConfig × Option AuthManager)
prepare outside cli =
    and_then (map_err StartError.load_failed (load outside.path_of outside.source cli.config))
      λ loaded.
        let config = override_port cli.port loaded in
        and_then (map_err StartError.invalid (validate outside.files config)) λ checked.
          and_then (build_auth_manager outside.make_provider config) λ auth. ok (config, auth)

-- A manager that has started: its configuration, its authentication and its state.
pub record Running (P D : Type 0) : Type 0 where
  pub config : ManagerConfig
  pub auth : Option AuthManager
  pub managed : Managed P D

abbrev pub state_manager : ManagerConfig → StateManager
state_manager config = record {
  state_file = config.state_file;
  tei_binary_path = config.tei_binary_path;
}

module _ {P : Type 0} (pm : ProcessManager P) (free : ℕ → Bool) (now : Timestamp) where
  -- One seeded instance: its failures are logged.
  unfoldable pub seed_one : String → InstanceConfig → World P → World P
  seed_one binary c w =
      let (added, w') = add_instance free c w in
      elim added [
        | err e ↦ w'
        | ok i ↦ record w' { runtime = (start pm i binary now w'.runtime).1 }
      ]

  unfoldable pub seed : String → List InstanceConfig → World P → World P
  seed binary [] w = w
  seed binary (c ∷ cs) w = seed binary cs (seed_one binary c w)

module _ {P : Type 0} (pm : ProcessManager P) where
  -- The shutdown's loop over the instances: failures are logged.
  unfoldable pub stop_all : List TeiInstance → Runtime P → Runtime P
  stop_all [] r = r
  stop_all (i ∷ is) r = stop_all is (stop pm i r).1

module _ {P D : Type 0} (storage : StorageBackend D) (toml : Toml) (pm : ProcessManager P)
    (free : ℕ → Bool) (now : Timestamp) where
  abbrev pub restored :
      Result StateError RestoreReport × Managed P D → Result StartError (Managed P D)
  restored (ok report, m) = ok m
  restored (err e, m) = err (StartError.restore_failed e)

  module _ (ready : TeiInstance → Runtime P → Bool × Runtime P) where
    -- The instances at start-up: those of the state file, or the configuration's.
    unfoldable pub first_instances : ManagerConfig → Managed P D → Result StartError (Managed P D)
    first_instances config m =
        if config.auto_restore_on_restart
        then restored
            (restore_with_options storage toml (state_manager config) pm free now ready true m)
        else ok
            (record m { world = seed pm free now config.tei_binary_path config.instances m.world })

    abbrev pub fresh : ManagerConfig → Runtime P → D → Managed P D
    fresh config runtime disk = record {
      world = record {
        registry =
            new_registry config.max_instances config.tei_binary_path config.instance_port_start
              config.instance_port_end;
        runtime = runtime;
      };
      disk = disk;
      restore_in_progress = false;
    }

    -- `main`, up to the servers.
    unfoldable pub start_up : Outside → Cli → Runtime P → D → Result StartError (Running P D)
    start_up outside cli runtime disk = and_then (prepare outside cli) λ (config, auth).
        and_then (first_instances config (fresh config runtime disk))
          λ m. ok (record { config = config; auth = auth; managed = m })

  -- `main`, from the end of the servers on: the instances are stopped, and the state is saved.
  unfoldable pub shut_down : Running P D → Result StateError (Unit {0}) × Running P D
  shut_down s =
      let w = s.managed.world in
      let stopped : World P = record w { runtime = stop_all pm (list w.registry) w.runtime } in
      let (saved, disk) =
        save storage toml (state_manager s.config) now w.registry s.managed.disk in
      (saved, record s { managed = record s.managed { world = stopped; disk = disk } })
