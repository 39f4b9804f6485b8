-- ===== src/Instance.antt =====
-- src/instance.rs: an instance, its process manager, and the life cycle of its process.
-- An `Arc<TeiInstance>` is its configuration, which never changes, and the address of the cell
-- that its locks guard; the cells and the process managers are the shared `Runtime`. Each method
-- runs as one step, with the time and the process manager as arguments.
pub mod System
pub mod Lifecycle
pub mod Tests
use tei_manager.Base.{
  ℕ, ◌+◌, ◌%◌, ◌≡◌, ◌≢◌, ◌⊎◌, String, Bool, true, false, Option, none, some, List, ◌==◌,
  if◌then◌else◌, Result, ok, err, Action, pure, gets, modify, ◌>>=◌, ◌>>◌,
}
use tei_manager.Config.{InstanceConfig, Timestamp}

pub record SpawnConfig : Type 0 where
  pub instance_name : String
  pub binary_path : String
  pub model_id : String
  pub port : ℕ
  pub max_batch_tokens : ℕ
  pub max_concurrent_requests : ℕ
  pub pooling : Option String
  pub gpu_id : Option ℕ
  pub prometheus_port : Option ℕ
  pub extra_args : List String

-- `ProcessHandle`: its `id` is `process_<pid>`, kept as the pid.
pub record ProcessHandle : Type 0 where
  pub id : ℕ

-- An `anyhow::Error`, by its message.
abbrev pub AnyError : Type 0
AnyError = String

-- `trait ProcessManager`. Each instance has a manager of its own: the first argument of an
-- operation says whose, and `P` is the state of all of them and of the operating system.
pub record ProcessManager (P : Type 0) : Type 0 where
  pub spawn : ℕ → SpawnConfig → Action P AnyError ProcessHandle
  pub stop : ℕ → ProcessHandle → ℕ → Action P AnyError (Unit {0})
  pub is_running : ℕ → ProcessHandle → P → Bool
  pub pid : ℕ → ProcessHandle → P → Option ℕ

-- A process that was spawned is running; a handle that was stopped is not.
abbrev pub Runs : {P : Type 0} → ProcessManager P → ℕ → Result AnyError ProcessHandle × P → Type 0
Runs pm self (ok h, p) = pm.is_running self h p ≡ true
Runs pm self (err _, p) = Unit

abbrev pub Ended :
    {P : Type 0} → ProcessManager P → ℕ → ProcessHandle → Result AnyError (Unit {0}) × P → Type 0
Ended pm self h (ok _, p) = pm.is_running self h p ≡ false
Ended pm self h (err _, p) = Unit

-- What the callers of a process manager rely on.
pub record Lawful {P : Type 0} (pm : ProcessManager P) : Type 0 where
  pub spawn_runs : (self : ℕ) (c : SpawnConfig) (p : P) → Runs pm self (pm.spawn self c p)
  pub spawn_keeps :
      (self : ℕ) (c : SpawnConfig) (p : P) (other : ℕ) (k : ProcessHandle)
      → pm.is_running other k p ≡ true
      → pm.is_running other k (pm.spawn self c p).1 ≡ true
  pub stop_ends :
      (self : ℕ) (h : ProcessHandle) (timeout : ℕ) (p : P)
      → Ended pm self h (pm.stop self h timeout p)
  pub stop_keeps :
      (self : ℕ) (h : ProcessHandle) (timeout : ℕ) (p : P) (other : ℕ) (k : ProcessHandle)
      → (self ≢ other) ⊎ (h.id ≢ k.id)
      → pm.is_running other k (pm.stop self h timeout p).1 ≡ pm.is_running other k p

pub data InstanceStatus : Type 0 where
  starting running stopping stopped failed : InstanceStatus

pub record InstanceStats : Type 0 where
  pub started_at : Option Timestamp
  pub restarts : ℕ
  pub last_health_check : Option Timestamp
  pub health_check_failures : ℕ

-- What the locks of a `TeiInstance` guard.
pub record Cell : Type 0 where
  pub process_handle : Option ProcessHandle
  pub status : InstanceStatus
  pub stats : InstanceStats

pub record TeiInstance : Type 0 where
  pub config : InstanceConfig
  pub cell : ℕ

pub record Runtime (P : Type 0) : Type 0 where
  pub cells : ℕ → Cell
  pub procs : P

abbrev pub default_stats : InstanceStats
default_stats = record {
  started_at = none;
  restarts = 0;
  last_health_check = none;
  health_check_failures = 0;
}

-- The cell that `TeiInstance::new_with_manager` allocates.
abbrev pub new_cell : Cell
new_cell = record { process_handle = none; status = InstanceStatus.stopped; stats = default_stats }

abbrev pub u32_mod : ℕ
u32_mod = 4294967296

abbrev pub write_cell : (ℕ → Cell) → ℕ → Cell → ℕ → Cell
write_cell cells a c b = if a == b then c else cells b

pub spawn_config : InstanceConfig → String → SpawnConfig
spawn_config c binary = record {
  instance_name = c.name;
  binary_path = binary;
  model_id = c.model_id;
  port = c.port;
  max_batch_tokens = c.max_batch_tokens;
  max_concurrent_requests = c.max_concurrent_requests;
  pooling = c.pooling;
  gpu_id = c.gpu_id;
  prometheus_port = c.prometheus_port;
  extra_args = c.extra_args;
}

module _ {P : Type 0} where
  abbrev pub set_cell : ℕ → Cell → Runtime P → Runtime P
  set_cell a c r = record r { cells = write_cell r.cells a c }

  abbrev pub update_cell : ℕ → (Cell → Cell) → Runtime P → Runtime P
  update_cell a f r = set_cell a (f (r.cells a)) r

  -- An operation of the process managers, on the runtime.
  abbrev pub on_procs : {A : Type 0} → Action P AnyError A → Action (Runtime P) AnyError A
  on_procs m r = let (res, p) = m r.procs in (res, record r { procs = p })

-- `*instance.status.write().await = s`.
abbrev pub with_status : InstanceStatus → Cell → Cell
with_status s c = record c { status = s }

-- What `start` writes once the process is spawned.
abbrev started_cell : ProcessHandle → Timestamp → Cell → Cell
started_cell h now c = record c {
  process_handle = some h;
  status = InstanceStatus.starting;
  stats = record c.stats { started_at = some now };
}

-- `stats.restarts += 1` on a `u32`.
abbrev count_restart : Cell → Cell
count_restart c = record c {
  stats = record c.stats { restarts = (c.stats.restarts + 1) % u32_mod };
}

abbrev pub stop_timeout_secs : ℕ
stop_timeout_secs = 30

module _ {P : Type 0} (pm : ProcessManager P) where
  -- `TeiInstance::start`.
  unfoldable pub start : TeiInstance → String → Timestamp → Action (Runtime P) AnyError (Unit {0})
  start i binary now = do
    handle ← on_procs (pm.spawn i.cell (spawn_config i.config binary))
    modify (update_cell i.cell (started_cell handle now))

  -- The handle is taken out of the cell before the manager is asked, so it is gone on an error too.
  take_and_stop : TeiInstance → Option ProcessHandle → Action (Runtime P) AnyError (Unit {0})
  take_and_stop i none = pure tt
  take_and_stop i (some handle) = do
    modify (update_cell i.cell (λ c. record c { process_handle = none }))
    on_procs (pm.stop i.cell handle stop_timeout_secs)

  -- `TeiInstance::stop`.
  unfoldable pub stop : TeiInstance → Action (Runtime P) AnyError (Unit {0})
  unfolding take_and_stop
  stop i = do
    modify (update_cell i.cell (with_status InstanceStatus.stopping))
    handle ← gets (λ r. (r.cells i.cell).process_handle)
    take_and_stop i handle
    modify (update_cell i.cell (with_status InstanceStatus.stopped))

  -- `TeiInstance::restart`; the wait of two seconds changes nothing here.
  unfoldable pub restart : TeiInstance → String → Timestamp → Action (Runtime P) AnyError (Unit {0})
  restart i binary now = do stop i; start i binary now; modify (update_cell i.cell count_restart)

  -- `TeiInstance::is_running` and `TeiInstance::pid`.
  unfoldable pub is_running : TeiInstance → Runtime P → Bool
  is_running i r = elim (r.cells i.cell).process_handle [
    | none ↦ false
    | some handle ↦ pm.is_running i.cell handle r.procs
  ]

  pub pid : TeiInstance → Runtime P → Option ℕ
  pid i r = elim (r.cells i.cell).process_handle [
    | none ↦ none
    | some handle ↦ pm.pid i.cell handle r.procs
  ]
