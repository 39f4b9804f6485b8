-- ===== src/Api/Tests.antt =====
-- Runs of the handlers of src/api/handlers.rs, and theorems about them at concrete inputs.
use tei_manager.Base.{ℕ, ◌≡◌, refl, String, none, some, List, [], ◌∷◌, arith, err, length}
use tei_manager.Base.Dict
use tei_manager.Instance.{ProcessManager}
use tei_manager.Instance.System.{Os, SystemState, system_manager}
use tei_manager.Instance.System
use tei_manager.Instance.System.Table.{system_manager-Lawful}
use tei_manager.Instance
use tei_manager.Instance.Tests.{toy_os, toy_runtime}
use tei_manager.Errors.{Message, TeiError, from_any}
use tei_manager.Registry.{Registry, already_exists, get, new_registry}
use tei_manager.Registry
use tei_manager.Registry.Tests.{empty, all_free}
use tei_manager.Registry.World.{add_instance}
use tei_manager.Api.{
  CreateInstanceRequest, AppState, GpuInfo, create_instance, config_of, check_gpu,
}
use tei_manager.Api.Logs.{negsuc, slice_logs}
use tei_manager.Api.Logs.Slices.{slice_logs-python, get_elem?}
use tei_manager.Api.Handlers.{create_failed_start}

abbrev log : List String
log = "a" ∷ "b" ∷ "c" ∷ "d" ∷ []

slice_logs-python_example :
    (length (slice_logs log (some (negsuc 2)) (some (negsuc 0))).lines ≡ 2)
    × (get_elem? (slice_logs log (some (negsuc 2)) (some (negsuc 0))).lines 1 ≡ some "c")
slice_logs-python_example =
    let run = slice_logs-python log (some (negsuc 2)) (some (negsuc 0)) 1 (omega arith) in
    (run.3, run.4)

abbrev toy_state : AppState (SystemState ℕ)
toy_state = record { world = record { registry = empty; runtime = toy_runtime }; tasks = [] }

-- No program can be started.
abbrev broken_os : Os ℕ
broken_os = record toy_os { exec = λ c o. (none, o) }

abbrev broken_manager : ProcessManager (SystemState ℕ)
broken_manager = system_manager broken_os

abbrev request : CreateInstanceRequest
request = record {
  name = "bge";
  model_id = "BAAI/bge";
  port = some 8080;
  max_batch_tokens = none;
  max_concurrent_requests = none;
  pooling = none;
  gpu_id = none;
  prometheus_port = some 9100;
  startup_timeout_secs = none;
  extra_args = none;
}

abbrev no_gpus : GpuInfo
no_gpus = record { indices = [] }

abbrev after_create : AppState (SystemState ℕ)
after_create = (create_instance broken_manager 7 all_free no_gpus request toy_state).1

create_failed_start_example :
    create_instance broken_manager 7 all_free no_gpus request after_create
    ≡ (err (TeiError.validation_error (Message.of_registry (already_exists "bge"))), after_create)
unfolding new_registry create_instance from_any check_gpu add_instance config_of Registry.add
    Registry.assign_port Registry.check_conflict Registry.check_max Registry.assign_prometheus_port
    Dict.contains_key Registry.find_conflict Dict.lookup Dict.insert Instance.start System.spawn
create_failed_start_example =
    (create_failed_start broken_manager (system_manager-Lawful broken_os) 7 all_free no_gpus request
      toy_state after_create "Failed to spawn TEI process" refl).2
