-- ===== src/Health/Tests.antt =====
-- Runs of the monitor of src/health.rs, and theorems about it at concrete inputs.
use tei_manager.Base.{ℕ, ◌*◌, ◌≡◌, refl, Bool, some, [], ◌∷◌, arith, ◌==◌}
use tei_manager.Instance.{InstanceStatus, new_cell}
use tei_manager.Instance.System.{SystemState}
use tei_manager.Instance.Tests.{toy_manager, toy_laws, toy_runtime, toy_instance}
use tei_manager.Health.{
  default_monitor_config, Monitored, Probe, HealthChecker, default_restart, check_single_instance,
  unhealthy, healthy_result,
}
use tei_manager.Health.Restarts.{RestartedIfSpawned, check_once, check_run, stopped_is_restarted}
use tei_manager.Health.Ready.{TaskEnds, poll, enough_rounds, await_ready, await_ready_ends}

abbrev pub refused : Probe
refused port now = some "gRPC connect failed"

abbrev monitored : Monitored (SystemState ℕ)
monitored = record { runtime = toy_runtime; events = [] }

abbrev sick : HealthChecker (SystemState ℕ)
sick i now r = unhealthy "down"

abbrev well : HealthChecker (SystemState ℕ)
well i now r = healthy_result

abbrev begun : Monitored (SystemState ℕ)
begun = record {
  runtime = record toy_runtime {
    cells = λ a. record new_cell { status = InstanceStatus.starting };
  };
  events = [];
}

abbrev mended : Monitored (SystemState ℕ)
mended =
    check_single_instance default_monitor_config (default_restart toy_manager) "ter" well
      toy_instance 3 begun

stopped_is_restarted_example :
    let before =
      check_run toy_manager refused default_monitor_config "ter" toy_instance
        (1 ∷ 2 ∷ [])
        monitored in
    ((before.runtime.cells 0).status ≡ InstanceStatus.stopped)
    × RestartedIfSpawned toy_manager toy_instance "ter" monitored
        (check_once toy_manager refused default_monitor_config "ter" toy_instance 3 before)
stopped_is_restarted_example =
    stopped_is_restarted toy_manager toy_laws refused default_monitor_config "ter" toy_instance
      monitored (1 ∷ 2 ∷ []) 3 refl refl refl refl refl (omega arith)

-- Ready in the third round; one second a round.
abbrev third : ℕ → Bool
third k = k == 2

abbrev seconds : ℕ → ℕ
seconds k = k * 1

await_ready_ends_example :
    TaskEnds seconds third 5
      (poll seconds third 5 (enough_rounds 5 1) 0)
      toy_instance
      begun.runtime
      (await_ready seconds third 5 (enough_rounds 5 1) toy_instance begun.runtime)
await_ready_ends_example =
    await_ready_ends seconds third 5 1 toy_instance begun.runtime (omega arith) (λ k. omega arith)
