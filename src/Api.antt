-- ===== src/Api.antt =====
-- src/api/handlers.rs and src/api/models.rs: the handlers on instances. A handler is an action on
-- the instances and on the list of the background tasks that were spawned; metrics and logging are
-- left out. The detected GPUs are an argument.
pub mod Logs
pub mod Handlers
pub mod Effects
pub mod Routes
pub mod Tests
use tei_manager.Base.{
  ℕ, ◌+◌, ◌-◌, ◌%◌, String, Bool, true, false, not, Option, none, some, List, [], ◌∷◌, ◌++◌, map,
  ltb, if◌then◌else◌, Result, ok, err, Action, pure, bail, bail_if, gets, modify, lift, ok_or,
  map_err, unwrap_or, length, ◌>>=◌, ◌>>◌,
}
use tei_manager.Config.{
  InstanceConfig, Timestamp, default_max_batch_tokens, default_max_concurrent_requests,
}
use tei_manager.Instance.{
  TeiInstance, InstanceStatus, Runtime, ProcessManager, AnyError, Cell, pid, start, stop, restart,
}
use tei_manager.Errors.{Message, TeiError, from_any}
use tei_manager.Registry.{Registry, RegistryError, get, list}
use tei_manager.Registry.World.{World, add_instance, remove, on_runtime}

pub record CreateInstanceRequest : Type 0 where
  pub name : String
  pub model_id : String
  pub port : Option ℕ
  pub max_batch_tokens : Option ℕ
  pub max_concurrent_requests : Option ℕ
  pub pooling : Option String
  pub gpu_id : Option ℕ
  pub prometheus_port : Option ℕ
  pub startup_timeout_secs : Option ℕ
  pub extra_args : Option (List String)

pub record InstanceInfo : Type 0 where
  pub name : String
  pub model_id : String
  pub port : ℕ
  pub status : InstanceStatus
  pub pid : Option ℕ
  pub created_at : Option Timestamp
  pub uptime_secs : Option ℕ
  pub restarts : ℕ
  pub health_check_failures : ℕ
  pub last_health_check : Option Timestamp
  pub gpu_id : Option ℕ
  pub prometheus_port : Option ℕ

-- What a handler spawns: the wait for an instance, or a save of the state.
pub data Task : Type 0 where
  await_instance : TeiInstance → Task
  save_state : Task

pub record AppState (P : Type 0) : Type 0 where
  pub world : World P
  pub tasks : List Task

-- `GpuInfo` of src/gpu.rs, by its indices.
pub record GpuInfo : Type 0 where
  pub indices : List ℕ

pub is_valid_gpu_id : GpuInfo → ℕ → Bool
is_valid_gpu_id g id = ltb id (length g.indices)

abbrev u64_mod : ℕ
u64_mod = 18446744073709551616

uptime : Timestamp → Option Timestamp → Option ℕ
uptime now none = none
uptime now (some start) = some ((now + u64_mod - start) % u64_mod)

abbrev pub Handler : Type 0 → Type 0 → Type 0
Handler P A = Action (AppState P) TeiError A

module _ {P : Type 0} where
  -- `InstanceInfo::from_instance`.
  pub from_instance : ProcessManager P → Timestamp → TeiInstance → Runtime P → InstanceInfo
  unfolding uptime
  from_instance pm now i r = record {
    name = i.config.name;
    model_id = i.config.model_id;
    port = i.config.port;
    status = (r.cells i.cell).status;
    pid = pid pm i r;
    created_at = i.config.created_at;
    uptime_secs = uptime now (r.cells i.cell).stats.started_at;
    restarts = (r.cells i.cell).stats.restarts;
    health_check_failures = (r.cells i.cell).stats.health_check_failures;
    last_health_check = (r.cells i.cell).stats.last_health_check;
    gpu_id = i.config.gpu_id;
    prometheus_port = i.config.prometheus_port;
  }

  abbrev on_world :
      {A : Type 0} → (RegistryError → TeiError) → Action (World P) RegistryError A → Handler P A
  on_world f m s = let (res, w) = m s.world in (map_err f res, record s { world = w })

  abbrev on_instances : {A : Type 0} → Action (Runtime P) AnyError A → Handler P A
  on_instances m s = let (res, w) = on_runtime from_any m s.world in (res, record s { world = w })

  abbrev spawn_task : Task → Handler P (Unit {0})
  spawn_task t = modify (λ s. record s { tasks = s.tasks ++ t ∷ [] })

  pub check_gpu : GpuInfo → Option ℕ → Handler P (Unit {0})
  check_gpu g none = pure tt
  check_gpu g (some id) =
      bail_if (not (is_valid_gpu_id g id))
        (TeiError.invalid_gpu_id id (Message.available_gpus g.indices))

  -- `.ok_or_else(|| InstanceNotFound)`.
  abbrev find_instance : String → Handler P TeiInstance
  find_instance name s = (ok_or (get name s.world.registry) (TeiError.instance_not_found name), s)

pub config_of : Timestamp → CreateInstanceRequest → InstanceConfig
config_of now req = record {
  name = req.name;
  model_id = req.model_id;
  port = unwrap_or req.port 0;
  max_batch_tokens = unwrap_or req.max_batch_tokens default_max_batch_tokens;
  max_concurrent_requests = unwrap_or req.max_concurrent_requests default_max_concurrent_requests;
  pooling = req.pooling;
  gpu_id = req.gpu_id;
  prometheus_port = req.prometheus_port;
  startup_timeout_secs = req.startup_timeout_secs;
  extra_args = unwrap_or req.extra_args [];
  created_at = some now;
}

module _ {P : Type 0} (pm : ProcessManager P) (now : Timestamp) where
  abbrev info_of : TeiInstance → Handler P InstanceInfo
  info_of i = gets (λ s. from_instance pm now i s.world.runtime)

  abbrev binary_start : TeiInstance → Handler P (Unit {0})
  binary_start i s = on_instances (start pm i s.world.registry.tei_binary_path now) s

  -- POST /instances
  pub create_instance : (ℕ → Bool) → GpuInfo → CreateInstanceRequest → Handler P InstanceInfo
  unfolding check_gpu
  create_instance free gpus req = do
    check_gpu gpus req.gpu_id
    i ←
        on_world (λ e. TeiError.validation_error (Message.of_registry e))
          (add_instance free (config_of now req))
    binary_start i
    spawn_task (Task.await_instance i)
    spawn_task Task.save_state
    info_of i

  -- GET /instances, GET /instances/:name
  pub list_instances : Handler P (List InstanceInfo)
  list_instances =
      gets (λ s. map (λ i. from_instance pm now i s.world.runtime) (list s.world.registry))

  pub get_instance : String → Handler P InstanceInfo
  get_instance name = do i ← find_instance name; info_of i

  -- DELETE /instances/:name; any failure is reported as an unknown name.
  unfoldable pub delete_instance : String → Handler P (Unit {0})
  delete_instance name = do
    on_world (λ e. TeiError.instance_not_found name) (remove pm name)
    spawn_task Task.save_state

  -- POST /instances/:name/start, /stop and /restart
  pub start_instance : String → Handler P InstanceInfo
  start_instance name = do
    i ← find_instance name
    binary_start i
    spawn_task (Task.await_instance i)
    info_of i

  pub stop_instance : String → Handler P InstanceInfo
  stop_instance name = do i ← find_instance name; on_instances (stop pm i); info_of i

  pub restart_instance : String → Handler P InstanceInfo
  restart_instance name = do
    i ← find_instance name
    (λ s. on_instances (restart pm i s.world.registry.tei_binary_path now) s)
    info_of i
