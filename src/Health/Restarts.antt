-- ===== src/Health/Restarts.antt =====
-- The restarts of src/health.rs, with the production checker and restart strategy.
use tei_manager.Base.{
  ◌+◌, ◌%◌, ◌≤◌, ◌<◌, ◌≡◌, ◌≢◌, refl, subst, String, true, false, none, some, List, Result, ok, err,
  arith, length, ◌∙◌,
}
use tei_manager.Config.{Timestamp}
use tei_manager.Instance.{
  ProcessManager, ProcessHandle, AnyError, Lawful, InstanceStatus, TeiInstance, Runtime, u32_mod,
  is_running, spawn_config, start, stop, restart,
}
use tei_manager.Instance.Lifecycle.{is_running_none}
use tei_manager.Health.{
  HealthMonitorConfig, Monitored, Probe, grpc_check, default_restart, handle_failure,
  check_single_instance,
}
use tei_manager.Health.Checks.{check_times, failed_checks-IsWaiting}

module _ {P : Type 0} (pm : ProcessManager P) where
  -- What a restart comes to when the process manager answers `spawned`: the new process is the
  -- instance's, runs, and is counted, or the instance has none and is marked failed.
  abbrev pub RestartedWith :
      Result AnyError ProcessHandle → TeiInstance → Monitored P → Monitored P → Type 0
  RestartedWith (ok handle) i m m' =
      ((m'.runtime.cells i.cell).process_handle ≡ some handle)
      × ((m'.runtime.cells i.cell).status ≡ InstanceStatus.starting)
      × (is_running pm i m'.runtime ≡ true)
      × ((m'.runtime.cells i.cell).stats.restarts
          ≡ ((m.runtime.cells i.cell).stats.restarts + 1) % u32_mod)
  RestartedWith (err e) i m m' =
      ((m'.runtime.cells i.cell).process_handle ≡ none)
      × ((m'.runtime.cells i.cell).status ≡ InstanceStatus.failed)
      × ((m'.runtime.cells i.cell).stats.restarts ≡ (m.runtime.cells i.cell).stats.restarts)

  -- A restart at the limit of an instance without a process, by the answer of the process manager
  -- that is asked to spawn it.
  abbrev pub RestartedIfSpawned : TeiInstance → String → Monitored P → Monitored P → Type 0
  RestartedIfSpawned i binary m m' =
      RestartedWith (pm.spawn i.cell (spawn_config i.config binary) m.runtime.procs).0 i m m'

module _ {P : Type 0} (pm : ProcessManager P) (probe : Probe) (config : HealthMonitorConfig)
    (binary : String) where
  abbrev pub check_once : TeiInstance → Timestamp → Monitored P → Monitored P
  check_once = check_single_instance config (default_restart pm) binary (grpc_check pm probe)

  abbrev pub check_run : TeiInstance → List Timestamp → Monitored P → Monitored P
  check_run = check_times config (default_restart pm) binary (grpc_check pm probe)

module _ {P : Type 0} (pm : ProcessManager P) (laws : Lawful pm) (probe : Probe)
    (config : HealthMonitorConfig) (binary : String) where
  pub failed_check_restarts :
      (i : TeiInstance) (now : Timestamp) (m : Monitored P)
      → (m.runtime.cells i.cell).process_handle ≡ none
      → (grpc_check pm probe i now m.runtime).healthy ≡ false
      → config.auto_restart ≡ true
      → (m.runtime.cells i.cell).status ≢ InstanceStatus.starting
      → config.max_failures_before_restart
        ≤ ((m.runtime.cells i.cell).stats.health_check_failures + 1) % u32_mod
      → RestartedIfSpawned pm i binary m (check_once pm probe config binary i now m)
  unfolding check_single_instance handle_failure default_restart restart start stop is_running
  failed_check_restarts i now m none_left h auto s l =
      by_spawn (pm.spawn i.cell (spawn_config i.config binary) m.runtime.procs) refl
    where
      by_spawn :
          (r : Result AnyError ProcessHandle × P)
          → pm.spawn i.cell (spawn_config i.config binary) m.runtime.procs ≡ r
          → RestartedWith pm r.0 i m (check_once pm probe config binary i now m)
      by_spawn (ok handle, p) e =
          let runs = laws.spawn_runs i.cell (spawn_config i.config binary) m.runtime.procs in
          ground (arith, none_left, h, auto, s, l, e, runs)
      by_spawn (err x, p) e = ground (arith, none_left, h, auto, s, l, e)

  pub no_process_fails :
      (i : TeiInstance) (now : Timestamp) (r : Runtime P)
      → (r.cells i.cell).process_handle ≡ none
      → (grpc_check pm probe i now r).healthy ≡ false
  unfolding grpc_check
  no_process_fails i now r h = ground (arith, is_running_none pm i r h)

  RestartedIfSpawned-since :
      (i : TeiInstance) (before m m' : Monitored P)
      → before.runtime.procs ≡ m.runtime.procs
      → (before.runtime.cells i.cell).stats.restarts ≡ (m.runtime.cells i.cell).stats.restarts
      → RestartedIfSpawned pm i binary before m'
      → RestartedIfSpawned pm i binary m m'
  RestartedIfSpawned-since i before m m' procs restarts h =
      by_spawn (pm.spawn i.cell (spawn_config i.config binary) m.runtime.procs).0 (
        subst
          (λ p. RestartedWith pm (pm.spawn i.cell (spawn_config i.config binary) p).0 i before m')
          procs h)
    where
      by_spawn :
          (r : Result AnyError ProcessHandle)
          → RestartedWith pm r i before m'
          → RestartedWith pm r i m m'
      by_spawn (ok handle) k = ground (arith, k, restarts)
      by_spawn (err e) k = ground (arith, k, restarts)

  -- Where automatic restarts are on, the limit is positive and a `u32`, and the process
  -- manager is lawful, an instance that was stopped and has no failures counted stays stopped
  -- for one check less than the limit; at the check at the limit the process manager is asked
  -- to spawn: if it gives a process, that is the instance's and one more restart is counted,
  -- and if it refuses, the instance is marked failed.
  pub stopped_is_restarted :
      (i : TeiInstance) (m : Monitored P) (times : List Timestamp) (last : Timestamp)
      → (m.runtime.cells i.cell).status ≡ InstanceStatus.stopped
      → (m.runtime.cells i.cell).process_handle ≡ none
      → (m.runtime.cells i.cell).stats.health_check_failures ≡ 0
      → config.auto_restart ≡ true
      → config.max_failures_before_restart ≡ length times + 1
      → config.max_failures_before_restart < u32_mod
      → ((check_run pm probe config binary i times m).runtime.cells i.cell).status
          ≡ InstanceStatus.stopped
        × RestartedIfSpawned pm i binary m
            (check_once pm probe config binary i last (check_run pm probe config binary i times m))
  stopped_is_restarted i m times last s h f auto limit u32 =
      let waiting =
        failed_checks-IsWaiting config (default_restart pm) binary (grpc_check pm probe) i m.runtime
          (λ e. ground arith) u32 (λ now r e _. no_process_fails i now r (e ∙ h)) times 0 m
          (omega arith)
          (record { status = refl; handle = refl; restarts = refl; failures = f; procs = refl }) in
      let before = check_run pm probe config binary i times m in
      let restarted = RestartedIfSpawned-since i before m _ waiting.procs waiting.restarts (
        failed_check_restarts i last before (waiting.handle ∙ h)
          (no_process_fails i last before.runtime (waiting.handle ∙ h)) auto (λ e. ground arith)
          (omega (arith, waiting.failures))) in
      (waiting.status ∙ s, restarted)
