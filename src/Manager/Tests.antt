-- ===== src/Manager/Tests.antt =====
-- Runs of the handlers, the monitor and the pool together, at concrete inputs.
use tei_manager.Base.{ℕ, ◌≡◌, refl, true, none, [], ◌∷◌, arith}
use tei_manager.Base.Dict.{lookup}
use tei_manager.Instance
use tei_manager.Instance.System
use tei_manager.Instance.{TeiInstance}
use tei_manager.Instance.System.{SystemState}
use tei_manager.Instance.Tests.{toy_manager, toy_laws, toy_runtime}
use tei_manager.Registry
use tei_manager.Registry.{get}
use tei_manager.Registry.World
use tei_manager.Registry.Moves.{view}
use tei_manager.Registry.Tests.{empty, empty-IsValid}
use tei_manager.Base.Reorder.{perm_refl}
use tei_manager.Health.{HealthMonitorConfig, default_monitor_config}
use tei_manager.Health.Restarts.{RestartedIfSpawned}
use tei_manager.Health.Tests.{refused}
use tei_manager.Pool.Tests.{one_connection, toy_world, instance_a}
use tei_manager.Api.{CreateInstanceRequest, create_instance, delete_instance}
use tei_manager.Manager.{Manager, registry_of, on_app, check_watched, Step, Run}
use tei_manager.Manager.Runs.{SpecRun, acts_of, Run-SpecRun}
use tei_manager.Manager.Orphans.{deleted_is_restarted}

abbrev idle : Manager (SystemState ℕ)
idle = record {
  app = record { world = record { registry = empty; runtime = toy_runtime }; tasks = [] };
  pool = one_connection;
  seen = 0;
  watched = [];
  told = [];
}

abbrev impatient : HealthMonitorConfig
impatient = record default_monitor_config { max_failures_before_restart = 1 }

abbrev request : CreateInstanceRequest
request = record {
  name = "a";
  model_id = "m";
  port = none;
  max_batch_tokens = none;
  max_concurrent_requests = none;
  pooling = none;
  gpu_id = none;
  prometheus_port = none;
  startup_timeout_secs = none;
  extra_args = none;
}

abbrev busy : Manager (SystemState ℕ)
busy = on_app (create_instance toy_manager 1 (λ port. true) (record { indices = [] }) request) idle

abbrev gone : Manager (SystemState ℕ)
gone = on_app (delete_instance toy_manager 2 "a") busy

-- The instance is created, the entries change their order, and the instance is deleted.
abbrev three_steps : Run toy_manager refused impatient idle gone
three_steps =
    Run.after idle busy gone
      (Run.after idle busy busy
        (Run.after idle idle busy (Run.here idle)
          (Step.create 1 (λ port. true) (record { indices = [] }) request idle))
        (Step.reorder (registry_of busy).instances busy (perm_refl (registry_of busy).instances)))
      (Step.delete 2 "a" busy)

Run-SpecRun_example :
    SpecRun
      (acts_of toy_manager refused impatient idle gone three_steps)
      (view empty)
      (view (registry_of gone))
Run-SpecRun_example = Run-SpecRun toy_manager refused impatient idle gone three_steps empty-IsValid

abbrev watching : Manager (SystemState ℕ)
watching = record idle { app = record { world = toy_world; tasks = [] }; watched = instance_a ∷ [] }

abbrev after_delete : Manager (SystemState ℕ)
after_delete = on_app (delete_instance toy_manager 3 "a") watching

abbrev after_check : Manager (SystemState ℕ)
after_check = check_watched toy_manager refused impatient 4 instance_a [] after_delete

deleted_is_restarted_example :
    Run toy_manager refused impatient watching after_check
    × (get "a" (registry_of after_check) ≡ none)
    × RestartedIfSpawned toy_manager instance_a
        (registry_of after_delete).tei_binary_path
        (record { runtime = after_delete.app.world.runtime; events = after_delete.told })
        (record { runtime = after_check.app.world.runtime; events = after_check.told })
unfolding delete_instance World.remove Registry.take_out Registry.get Instance.stop System.stop
    lookup
deleted_is_restarted_example =
    deleted_is_restarted toy_manager toy_laws refused impatient 3 4 watching instance_a [] refl refl
      refl refl (omega arith)
