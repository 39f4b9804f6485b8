-- ===== src/Health.antt =====
-- src/health.rs: the checks of the health monitor, their events and restarts, and the wait for a
-- new instance. One check of one instance is a step; the time, the checker's probe and the process
-- manager are arguments.
pub mod Checks
pub mod Restarts
pub mod Ready
pub mod Tests
use tei_manager.Base.{
  ℕ, zero, suc, ◌+◌, ◌%◌, String, Bool, true, false, ◌&&◌, Option, none, some, List, [], ◌∷◌, ◌++◌,
  ltb, leb, if◌then◌else◌, Result, ok, err, Action, unwrap_or, map,
}
use tei_manager.Config.{Timestamp}
use tei_manager.Instance.{
  ProcessManager, InstanceStatus, Cell, TeiInstance, Runtime, AnyError, u32_mod, update_cell,
  with_status, is_running, restart,
}
use tei_manager.Registry.{Registry, list}

pub record HealthCheckResult : Type 0 where
  pub healthy : Bool
  pub reason : Option String

abbrev pub healthy_result : HealthCheckResult
healthy_result = record { healthy = true; reason = none }

abbrev pub unhealthy : String → HealthCheckResult
unhealthy reason = record { healthy = false; reason = some reason }

pub data HealthEvent : Type 0 where
  check_started check_succeeded restart_succeeded : String → HealthEvent
  check_failed : String → ℕ → String → HealthEvent
  restart_triggered : String → ℕ → HealthEvent
  restart_failed : String → AnyError → HealthEvent
  status_transition : String → InstanceStatus → InstanceStatus → HealthEvent

-- Durations are whole seconds.
pub record HealthMonitorConfig : Type 0 where
  pub check_interval : ℕ
  pub initial_delay : ℕ
  pub max_failures_before_restart : ℕ
  pub auto_restart : Bool

abbrev pub default_monitor_config : HealthMonitorConfig
default_monitor_config = record {
  check_interval = 30;
  initial_delay = 60;
  max_failures_before_restart = 3;
  auto_restart = true;
}

pub record HealthMonitorConfigBuilder : Type 0 where
  pub check_interval : Option ℕ
  pub initial_delay : Option ℕ
  pub max_failures_before_restart : Option ℕ
  pub auto_restart : Option Bool

pub build : HealthMonitorConfigBuilder → HealthMonitorConfig
build b = record {
  check_interval = unwrap_or b.check_interval default_monitor_config.check_interval;
  initial_delay = unwrap_or b.initial_delay default_monitor_config.initial_delay;
  max_failures_before_restart =
      unwrap_or b.max_failures_before_restart default_monitor_config.max_failures_before_restart;
  auto_restart = unwrap_or b.auto_restart default_monitor_config.auto_restart;
}

-- The processes and cells, and the events that the monitor has handled, oldest first.
pub record Monitored (P : Type 0) : Type 0 where
  pub runtime : Runtime P
  pub events : List HealthEvent

-- `trait HealthChecker` and `trait RestartStrategy`; the second argument is the time.
abbrev pub HealthChecker : Type 0 → Type 0
HealthChecker P = TeiInstance → Timestamp → Runtime P → HealthCheckResult

abbrev pub RestartStrategy : Type 0 → Type 0
RestartStrategy P = TeiInstance → String → Timestamp → Action (Runtime P) AnyError (Unit {0})

-- What the gRPC client answers at a port and a time: the failure of the connection or of the `Info`
-- call, or nothing.
abbrev pub Probe : Type 0
Probe = ℕ → Timestamp → Option String

module _ {P : Type 0} where
  -- `GrpcHealthChecker::check`.
  pub grpc_check : ProcessManager P → Probe → HealthChecker P
  grpc_check pm probe i now r =
      if is_running pm i r
      then (elim (probe i.config.port now) [ none ↦ healthy_result | some e ↦ unhealthy e ])
      else unhealthy "Process not running"

  -- `DefaultRestartStrategy`.
  pub default_restart : ProcessManager P → RestartStrategy P
  default_restart pm = restart pm

  abbrev pub emit : HealthEvent → Monitored P → Monitored P
  emit e m = record m { events = m.events ++ e ∷ [] }

  abbrev on_cell : TeiInstance → (Cell → Cell) → Monitored P → Monitored P
  on_cell i f m = record m { runtime = update_cell i.cell f m.runtime }

abbrev reset_failures : Timestamp → Cell → Cell
reset_failures now c = record c {
  stats = record c.stats { health_check_failures = 0; last_health_check = some now };
}

-- `stats.health_check_failures += 1` on a `u32`.
abbrev count_failure : Cell → Cell
count_failure c = record c {
  stats = record c.stats { health_check_failures = (c.stats.health_check_failures + 1) % u32_mod };
}

abbrev pub is_starting : InstanceStatus → Bool
is_starting InstanceStatus.starting = true
is_starting _ = false

module _ {P : Type 0} where
  -- `handle_success`.
  pub handle_success : TeiInstance → Timestamp → Monitored P → Monitored P
  handle_success i now m =
      let name = i.config.name in
      let reset = on_cell i (reset_failures now) m in
      let old = (reset.runtime.cells i.cell).status in
      let moved =
        if is_starting old
        then emit (HealthEvent.status_transition name old InstanceStatus.running)
            (on_cell i (with_status InstanceStatus.running) reset)
        else reset in
      emit (HealthEvent.check_succeeded name) moved

  -- What follows a restart.
  after_restart :
      TeiInstance → List HealthEvent → Result AnyError (Unit {0}) × Runtime P → Monitored P
  after_restart i events (ok _, r) =
      emit (HealthEvent.restart_succeeded i.config.name) (record { runtime = r; events = events })
  after_restart i events (err e, r) =
      on_cell i (with_status InstanceStatus.failed) (
        emit (HealthEvent.restart_failed i.config.name e) (record { runtime = r; events = events }))

  module _ (config : HealthMonitorConfig) (strategy : RestartStrategy P) (binary : String) where
    try_restart : TeiInstance → Timestamp → ℕ → Monitored P → Monitored P
    unfolding after_restart
    try_restart i now failures m =
        let triggered = emit (HealthEvent.restart_triggered i.config.name failures) m in
        after_restart i triggered.events (strategy i binary now triggered.runtime)

    count_and_restart : TeiInstance → Timestamp → String → Monitored P → Monitored P
    unfolding try_restart
    count_and_restart i now reason m =
        let counted = on_cell i count_failure m in
        let failures = (counted.runtime.cells i.cell).stats.health_check_failures in
        let told = emit (HealthEvent.check_failed i.config.name failures reason) counted in
        if config.auto_restart && leb config.max_failures_before_restart failures
        then try_restart i now failures told
        else told

    -- `handle_failure`.
    pub handle_failure : TeiInstance → Timestamp → String → Monitored P → Monitored P
    unfolding count_and_restart
    handle_failure i now reason m =
        if is_starting (m.runtime.cells i.cell).status then m else count_and_restart i now reason m

    module _ (check : HealthChecker P) where
      -- `check_single_instance`.
      pub check_single_instance : TeiInstance → Timestamp → Monitored P → Monitored P
      check_single_instance i now m =
          let begun = emit (HealthEvent.check_started i.config.name) m in
          let result = check i now begun.runtime in
          if result.healthy
          then handle_success i now begun
          else handle_failure i now (unwrap_or result.reason "") begun

      pub check_each : List TeiInstance → Timestamp → Monitored P → Monitored P
      check_each [] now m = m
      check_each (i ∷ is) now m = check_each is now (check_single_instance i now m)

      -- `check_all_instances`: the list is read once, before the checks.
      pub check_all_instances : Registry → Timestamp → Monitored P → Monitored P
      check_all_instances r now m = check_each (list r) now m
