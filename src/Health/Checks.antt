-- ===== src/Health/Checks.antt =====
-- `check_single_instance` of src/health.rs, for one check and for a run of them.
use tei_manager.Base.{
  ℕ, ◌+◌, ◌%◌, ◌<◌, ◌≡◌, ◌≢◌, ◌⊎◌, String, true, false, some, List, [], ◌∷◌, ◌++◌, arith, length,
  subst,
}
use tei_manager.Config.{Timestamp}
use tei_manager.Instance.{InstanceStatus, TeiInstance, Runtime, u32_mod}
use tei_manager.Health.{
  HealthEvent, HealthMonitorConfig, Monitored, HealthChecker, RestartStrategy, handle_success,
  handle_failure, check_single_instance,
}

module _ {P : Type 0} (config : HealthMonitorConfig) (strategy : RestartStrategy P)
    (binary : String) (check : HealthChecker P) where
  -- A failed check of a starting instance is announced, and changes nothing else.
  pub failed_check_starting :
      (i : TeiInstance) (now : Timestamp) (m : Monitored P)
      → (check i now m.runtime).healthy ≡ false
      → (m.runtime.cells i.cell).status ≡ InstanceStatus.starting
      → check_single_instance config strategy binary check i now m
        ≡ record m { events = m.events ++ HealthEvent.check_started i.config.name ∷ [] }
  unfolding check_single_instance handle_failure
  failed_check_starting i now m h s = ground arith

  -- A failed check of any other instance counts, and below the limit does nothing else.
  pub failed_check_counts :
      (i : TeiInstance) (now : Timestamp) (m : Monitored P)
      → (check i now m.runtime).healthy ≡ false
      → (m.runtime.cells i.cell).status ≢ InstanceStatus.starting
      → ((m.runtime.cells i.cell).stats.health_check_failures + 1) % u32_mod
        < config.max_failures_before_restart
      → let m' = check_single_instance config strategy binary check i now m in
        ((m'.runtime.cells i.cell).status ≡ (m.runtime.cells i.cell).status)
        × ((m'.runtime.cells i.cell).process_handle ≡ (m.runtime.cells i.cell).process_handle)
        × ((m'.runtime.cells i.cell).stats.health_check_failures
            ≡ ((m.runtime.cells i.cell).stats.health_check_failures + 1) % u32_mod)
        × ((m'.runtime.cells i.cell).stats.restarts ≡ (m.runtime.cells i.cell).stats.restarts)
        × (m'.runtime.procs ≡ m.runtime.procs)
  unfolding check_single_instance handle_failure
  failed_check_counts i now m h s l = ground arith

  -- A successful check clears the count of failures, dates the check, makes a starting
  -- instance a running one, and changes neither another status, the handle nor the processes.
  pub passed_check :
      (i : TeiInstance) (now : Timestamp) (m : Monitored P)
      → (check i now m.runtime).healthy ≡ true
      → let c = m.runtime.cells i.cell in
        let m' = check_single_instance config strategy binary check i now m in
        ((m'.runtime.cells i.cell).stats.health_check_failures ≡ 0)
        × ((m'.runtime.cells i.cell).stats.last_health_check ≡ some now)
        × ((m'.runtime.cells i.cell).process_handle ≡ c.process_handle)
        × (((c.status ≡ InstanceStatus.starting)
              × ((m'.runtime.cells i.cell).status ≡ InstanceStatus.running))
            ⊎ ((c.status ≢ InstanceStatus.starting)
                × ((m'.runtime.cells i.cell).status ≡ c.status)))
        × (m'.runtime.procs ≡ m.runtime.procs)
  unfolding check_single_instance handle_success
  passed_check i now m h = ground arith

  -- Checks of one instance, one after the other.
  pub check_times : TeiInstance → List Timestamp → Monitored P → Monitored P
  check_times i [] m = m
  check_times i (now ∷ later) m =
      check_times i later (check_single_instance config strategy binary check i now m)

  -- The instance as it was, but for the count of failures.
  pub record IsWaiting (i : TeiInstance) (r : Runtime P) (count : ℕ) (m : Monitored P)
      : Type 0 where
    pub status : (m.runtime.cells i.cell).status ≡ (r.cells i.cell).status
    pub handle : (m.runtime.cells i.cell).process_handle ≡ (r.cells i.cell).process_handle
    pub restarts : (m.runtime.cells i.cell).stats.restarts ≡ (r.cells i.cell).stats.restarts
    pub failures : (m.runtime.cells i.cell).stats.health_check_failures ≡ count
    pub procs : m.runtime.procs ≡ r.procs

  module _ (i : TeiInstance) (r : Runtime P)
      (not_starting : (r.cells i.cell).status ≢ InstanceStatus.starting)
      (limit_u32 : config.max_failures_before_restart < u32_mod)
      (fails : (now : Timestamp) (s : Runtime P)
        → (s.cells i.cell).process_handle ≡ (r.cells i.cell).process_handle
        → s.procs ≡ r.procs
        → (check i now s).healthy ≡ false) where
    failed_check-IsWaiting :
        (now : Timestamp) (f : ℕ) (m : Monitored P)
        → f + 1 < config.max_failures_before_restart
        → IsWaiting i r f m
        → IsWaiting i r (f + 1) (check_single_instance config strategy binary check i now m)
    failed_check-IsWaiting now f m l w = ground (
      arith,
      fails now m.runtime w.handle w.procs,
      failed_check_counts i now m (fails now m.runtime w.handle w.procs),
    )

    -- For an instance that is not starting and whose checks fail as long as its handle and
    -- the processes stay as they are, checks below the limit only count: status, handle,
    -- restarts and processes stay, and the count grows by one with each check.
    pub failed_checks-IsWaiting :
        (times : List Timestamp) (f : ℕ) (m : Monitored P)
        → f + length times < config.max_failures_before_restart
        → IsWaiting i r f m
        → IsWaiting i r (f + length times) (check_times i times m)
    unfolding check_times
    failed_checks-IsWaiting [] f m l w = ground arith
    failed_checks-IsWaiting (now ∷ later) f m l w =
        subst (λ k. IsWaiting i r k (check_times i (now ∷ later) m)) (omega arith)
          (failed_checks-IsWaiting later (f + 1) _ (omega arith)
            (failed_check-IsWaiting now f m (omega arith) w))
