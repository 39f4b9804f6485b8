-- ===== src/Manager/Orphans.antt =====
-- The monitor of src/health.rs works on the list that it read at the start of a round, while the
-- handlers of src/api/handlers.rs may take instances away.
use tei_manager.Base.{◌+◌, ◌%◌, ◌≤◌, ◌≡◌, true, none, some, List, ◌∷◌, arith, ok}
use tei_manager.Config.{Timestamp}
use tei_manager.Instance.{ProcessManager, Lawful, InstanceStatus, TeiInstance, u32_mod}
use tei_manager.Registry.{get}
use tei_manager.Registry.World.Removal.{remove_stops}
use tei_manager.Health.{HealthMonitorConfig, Monitored, Probe}
use tei_manager.Health.Restarts.{RestartedIfSpawned, failed_check_restarts, no_process_fails}
use tei_manager.Api.{delete_instance}
use tei_manager.Api.Effects.{delete_instance-remove}
use tei_manager.Instance.Lifecycle.{stop-Stopped}
use tei_manager.Manager.{Manager, registry_of, on_app, check_watched, Step, Run}

module _ {P : Type 0} (pm : ProcessManager P) (laws : Lawful pm) (probe : Probe)
    (config : HealthMonitorConfig) (now later : Timestamp) (m : Manager P) (i : TeiInstance)
    (rest : List TeiInstance) where
  abbrev deleted : Manager P
  deleted = on_app (delete_instance pm now i.config.name) m

  delete_then_check :
      m.watched ≡ i ∷ rest
      → Run pm probe config m (check_watched pm probe config later i rest deleted)
  delete_then_check w =
      Run.after m deleted _ (Run.after m m deleted (Run.here m) (Step.delete now i.config.name m))
        (Step.check later i rest deleted w)

  abbrev monitored : Manager P → Monitored P
  monitored s = record { runtime = s.app.world.runtime; events = s.told }

  deleted_stopped :
      get i.config.name (registry_of m) ≡ some i
      → (delete_instance pm now i.config.name m.app).0 ≡ ok tt
      → (get i.config.name (registry_of deleted) ≡ none)
        × ((deleted.app.world.runtime.cells i.cell).process_handle ≡ none)
        × ((deleted.app.world.runtime.cells i.cell).status ≡ InstanceStatus.stopped)
        × ((deleted.app.world.runtime.cells i.cell).stats
            ≡ (m.app.world.runtime.cells i.cell).stats)
  deleted_stopped known done =
      let (same, ends) = delete_instance-remove pm now i.config.name m.app in
      let (ok_stop, runtime, free) =
        remove_stops pm laws i.config.name m.app.world i known (ends done) in
      ground (arith, same, ok_stop, runtime, free, stop-Stopped pm laws i m.app.world.runtime)

  -- The monitor brings back what was deleted: if it has read an instance for its round, a handler then
  -- deletes that instance with success, and the failures counted before are one short of the limit for
  -- a restart, then the next check in the same round asks the process manager to spawn: if it gives a
  -- process, that runs for the instance, and if it refuses, the instance is marked failed, while its
  -- name is no longer registered. The process manager is lawful.
  pub deleted_is_restarted :
      m.watched ≡ i ∷ rest
      → get i.config.name (registry_of m) ≡ some i
      → (delete_instance pm now i.config.name m.app).0 ≡ ok tt
      → config.auto_restart ≡ true
      → config.max_failures_before_restart
        ≤ ((m.app.world.runtime.cells i.cell).stats.health_check_failures + 1) % u32_mod
      → Run pm probe config m (check_watched pm probe config later i rest deleted)
        × (get i.config.name (registry_of (check_watched pm probe config later i rest deleted))
            ≡ none)
        × RestartedIfSpawned pm i
            (registry_of deleted).tei_binary_path
            (monitored deleted)
            (monitored (check_watched pm probe config later i rest deleted))
  deleted_is_restarted w known done auto limit =
      let (free, handle, status, stats) = deleted_stopped known done in
      (
        delete_then_check w,
        free,
        failed_check_restarts pm laws probe config (registry_of deleted).tei_binary_path i later
            (monitored deleted) handle
            (no_process_fails pm laws probe config (registry_of deleted).tei_binary_path i later _
              handle)
            auto (λ e. ground (arith, status, e)) (ground (arith, stats, limit)),
      )
