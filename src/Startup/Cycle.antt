-- ===== src/Startup/Cycle.antt =====
-- From a start of src/main.rs over any run to a shutdown, and to the next start.
use tei_manager.Base.{
  ℕ, ◌<◌, ◌≡◌, ◌≢◌, refl, sym, ap, Bool, true, some, [], arith, Result, ok, Permᴰ,
}
use tei_manager.Base.Reorder.{perm_refl}
use tei_manager.Config.{ManagerConfig, Timestamp}
use tei_manager.Instance.{TeiInstance, ProcessManager, Runtime}
use tei_manager.Registry.{new_registry, u16_mod}
use tei_manager.Registry.Explicit.{configs}
use tei_manager.Health.{HealthMonitorConfig, Probe}
use tei_manager.Pool.{BackendPool}
use tei_manager.State.{
  Toml, ReadsBack, StateError, Managed, RestoreReport, save, restore_with_options,
}
use tei_manager.State.Storage.{Disk, Faults, file_storage}
use tei_manager.State.RoundTrip.{load-save, restore_after_save}
use tei_manager.Manager.{Manager, registry_of, Run}
use tei_manager.Manager.Runs.{Step-Moved}
use tei_manager.Startup.{
  Cli, Outside, Running, state_manager, first_instances, fresh, start_up, shut_down,
}
use tei_manager.Startup.Sound.{IsSound, Moved-IsSound}
use tei_manager.Startup.Starts.{prepare-low, start_up-parts, start_up-IsSound, restore_succeeds}

-- The parts of a manager that has started, before any of them has acted.
abbrev pub parts_of : {P D : Type 0} → Running P D → BackendPool → Manager P
parts_of s pool = record {
  app = record { world = s.managed.world; tasks = [] };
  pool = pool;
  seen = 0;
  watched = [];
  told = [];
}

-- The manager when its parts have come to `m`.
abbrev pub stopped_at : {P D : Type 0} → Running P D → Manager P → Running P D
stopped_at s m = record s { managed = record s.managed { world = m.app.world } }

Run-IsSound :
    {P : Type 0} (pm : ProcessManager P) (probe : Probe) (monitor : HealthMonitorConfig)
    (config : ManagerConfig)
    → 0 < config.instance_port_start
    → (m m' : Manager P) → Run pm probe monitor m m'
    → IsSound config (registry_of m)
    → IsSound config (registry_of m')
Run-IsSound pm probe monitor config low _ _ (Run.here m) s = s
Run-IsSound pm probe monitor config low _ _ (Run.after m m' m'' run step) s =
    Moved-IsSound config low (registry_of m') (registry_of m'')
      (Step-Moved pm probe monitor m' m'' step) (Run-IsSound pm probe monitor config low m m' run s)

module _ {P : Type 0} (pm : ProcessManager P) (f : Faults) (toml : Toml)
    (reads_back : ReadsBack toml) (outside : Outside) (cli : Cli) (probe : Probe)
    (monitor : HealthMonitorConfig) where
  module _ (free : ℕ → Bool) (now : Timestamp) (ready : TeiInstance → Runtime P → Bool × Runtime P)
      (runtime : Runtime P) (disk : Disk) (s : Running P Disk) (pool : BackendPool) (m : Manager P)
      (started : start_up (file_storage f true) toml pm free now ready outside cli runtime disk
        ≡ ok s)
      (u16 : s.config.instance_port_end < u16_mod)
      (run : Run pm probe monitor (parts_of s pool) m) where
    -- From a start that succeeds on, however the parts of the manager interleave, the registry is valid,
    -- every instance has its ports, and the limit and the range are those of the configuration; the end
    -- of the range is a `u16`.
    pub reachable-IsSound : IsSound s.config (registry_of m)
    reachable-IsSound =
        let (prepared, first) =
          start_up-parts (file_storage f true) toml pm free now ready outside cli runtime disk s
            started in
        Run-IsSound pm probe monitor s.config (prepare-low outside cli s.config s.auth prepared)
          (parts_of s pool) m run
          (start_up-IsSound (file_storage f true) toml pm free now ready outside cli runtime disk s
            started u16)

    shut_down-save :
        (stop_time : Timestamp)
        → (shut_down (file_storage f true) toml pm free stop_time (stopped_at s m)).0 ≡ ok tt
        → save
            (file_storage f true)
            toml
            (state_manager s.config)
            stop_time
            (registry_of m)
            s.managed.disk
          ≡ (
            ok tt,
            (shut_down
                (file_storage f true)
                toml
                pm
                free
                stop_time
                (stopped_at s m)).1.managed.disk,
          )
    unfolding shut_down
    shut_down-save stop_time h = ground (arith, h)

    module _ (stop_time : Timestamp) where
      abbrev left : Running P Disk
      left = (shut_down (file_storage f true) toml pm free stop_time (stopped_at s m)).1

      module _ (free₂ : ℕ → Bool) (now₂ : Timestamp)
          (ready₂ : TeiInstance → Runtime P → Bool × Runtime P) (runtime₂ : Runtime P) where
        abbrev next : Managed P Disk
        next =
            fresh (file_storage f true) toml pm free₂ now₂ ready₂ s.config runtime₂
              left.managed.disk

        abbrev restore_next : Result StateError RestoreReport × Managed P Disk
        restore_next =
            restore_with_options (file_storage f true) toml (state_manager s.config) pm free₂ now₂
              ready₂ true next

        restored_next :
            s.config.state_file.extension ≢ some "tmp"
            → (shut_down (file_storage f true) toml pm free stop_time (stopped_at s m)).0 ≡ ok tt
            → (report : RestoreReport) × (restore_next.0 ≡ ok report)
        restored_next ext saved =
            let loaded =
              load-save toml reads_back (state_manager s.config) f stop_time (registry_of m)
                s.managed.disk left.managed.disk ext (shut_down-save stop_time saved) in
            restore_succeeds (file_storage f true) toml pm free₂ now₂ ready₂
              (state_manager s.config) next _ refl loaded

        same_configs :
            s.config.state_file.extension ≢ some "tmp"
            → (shut_down (file_storage f true) toml pm free stop_time (stopped_at s m)).0 ≡ ok tt
            → Permᴰ (configs (registry_of m)) (configs restore_next.1.world.registry)
        same_configs ext saved =
            let sound = reachable-IsSound in
            restore_after_save toml reads_back (state_manager s.config) f pm free₂ stop_time now₂
              ready₂ true (registry_of m) (registry_of m).instances s.managed.disk next
              s.config.tei_binary_path s.config.instance_port_start s.config.instance_port_end ext
              sound.valid sound.placed (perm_refl (registry_of m).instances)
              (shut_down-save stop_time saved) refl
              (ap
                (λ max.
                  new_registry max s.config.tei_binary_path s.config.instance_port_start
                    s.config.instance_port_end)
                (sym sound.limit))

        -- A shutdown and the next start keep the instances: after a start that succeeds and any run of the
        -- manager's parts, if the shutdown's save succeeds and the configuration asks for a restore, then a
        -- start from the disk that is left, in the same environment, succeeds, and has instances of the same
        -- configurations, each as often, in some order, whichever of their processes start and whichever
        -- ports are free by then. The run may reorder the entries of the HashMap at any time. The TOML library reads back what it writes, the state file does not have
        -- the extension of the temporary file, and the end of the port range is a `u16`.
        pub restart_keeps :
            s.config.state_file.extension ≢ some "tmp"
            → s.config.auto_restore_on_restart ≡ true
            → (shut_down (file_storage f true) toml pm free stop_time (stopped_at s m)).0 ≡ ok tt
            → (s₂ : Running P Disk) × (start_up
                  (file_storage f true)
                  toml
                  pm
                  free₂
                  now₂
                  ready₂
                  outside
                  cli
                  runtime₂
                  left.managed.disk
                ≡ ok s₂)
              × Permᴰ (configs (registry_of m)) (configs s₂.managed.world.registry)
        unfolding start_up first_instances
        restart_keeps ext auto saved =
            let (prepared, first) =
              start_up-parts (file_storage f true) toml pm free now ready outside cli runtime disk s
                started in
            let (report, done) = restored_next ext saved in
            (
              record { config = s.config; auth = s.auth; managed = restore_next.1 },
              ground (arith, prepared, auto, done),
              same_configs ext saved,
            )
