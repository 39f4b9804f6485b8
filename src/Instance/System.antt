-- ===== src/Instance/System.antt =====
-- `SystemProcessManager` of src/instance.rs: the command line, the log file, and the table of
-- children. The operating system is a parameter; a child is its number there.
pub mod CommandLine
pub mod Table
use tei_manager.Base.{
  ℕ, ◌≡◌, String, Bool, true, false, not, Option, none, some, List, [], ◌∷◌, ◌++◌, map, ◌==◌, ◌||◌,
  str_eq, if◌then◌else◌, ok, err, Action, pure, bail, gets, modify, ◌>>=◌, ◌>>◌, unwrap_or, ok_or,
  lift,
}
use tei_manager.Instance.{SpawnConfig, ProcessHandle, ProcessManager, AnyError}

-- An argument of the child: a text, or the decimal text of a number.
pub data Arg : Type 0 where
  text : String → Arg
  number : ℕ → Arg

pub record Command : Type 0 where
  pub program : String
  pub cuda_visible_devices : Option ℕ
  pub args : List Arg

pub data Signal : Type 0 where
  sigterm sigkill : Signal

abbrev pub Child : Type 0
Child = ℕ

-- The operating system, with its state `O`.
pub record Os (O : Type 0) : Type 0 where
  pub log_dir_var : O → Option String
  pub create_dir_all : String → O → Bool × O
  pub open_log : String → String → O → Bool × O
  pub try_clone : O → Bool × O
  pub exec : Command → O → Option Child × O
  pub child_id : Child → O → Option ℕ
  pub drop_child : Child → O → O
  pub kill : ℕ → Signal → O → O
  pub wait : Child → O → O
  -- `select!` of the child's exit and a sleep: whether the child was first
  pub wait_or_timeout : Child → ℕ → O → Bool × O

abbrev pub prometheus_flag : String
prometheus_flag = "--prometheus-port"

unfoldable pub has_arg : String → List String → Bool
has_arg a [] = false
has_arg a (x ∷ xs) = str_eq x a || has_arg a xs

pub pooling_args : Option String → List Arg
pooling_args none = []
pooling_args (some pooling) = text "--pooling" ∷ text pooling ∷ []

pub prometheus_args : List String → Option ℕ → List Arg
prometheus_args extra none = []
prometheus_args extra (some port) =
    if has_arg prometheus_flag extra then [] else text prometheus_flag ∷ number port ∷ []

-- The command that `spawn` builds.
pub command : SpawnConfig → Command
command c = record {
  program = c.binary_path;
  cuda_visible_devices = c.gpu_id;
  args =
      text "--model-id"
      ∷ text c.model_id
      ∷ text "--port"
      ∷ number c.port
      ∷ text "--max-batch-tokens"
      ∷ number c.max_batch_tokens
      ∷ text "--max-concurrent-requests"
      ∷ number c.max_concurrent_requests
      ∷ text "--json-output"
      ∷ (pooling_args c.pooling
          ++ (prometheus_args c.extra_args c.prometheus_port ++ map text c.extra_args));
}

-- The tables of all managers: by manager and handle.
pub record SystemState (O : Type 0) : Type 0 where
  pub processes : ℕ → ℕ → Option Child
  pub os : O

abbrev pub put : (ℕ → ℕ → Option Child) → ℕ → ℕ → Option Child → ℕ → ℕ → Option Child
put t self h v s k = if self == s then (if h == k then v else t s k) else t s k

module _ {O : Type 0} (os : Os O) where
  abbrev Sys : Type 0 → Type 0
  Sys A = Action (SystemState O) AnyError A

  abbrev on_os : {A : Type 0} → (O → A × O) → Sys A
  on_os f s = let (a, o) = f s.os in (ok a, record s { os = o })

  abbrev require : String → (O → Bool × O) → Sys (Unit {0})
  require e f = on_os f >>= λ done. if done then pure tt else bail e

  -- The configured directory if it can be made, else the fallback.
  log_dir : Sys String
  log_dir = do
    var ← gets (λ s. os.log_dir_var s.os)
    let dir = unwrap_or var "/data/logs"
    made ← on_os (os.create_dir_all dir)
    if made then pure dir else (do
      require "Failed to create fallback log directory" (os.create_dir_all "/tmp/tei-manager/logs")
      pure "/tmp/tei-manager/logs")

  -- The child of the command, or an error; a child without a pid is dropped, which kills it.
  launch : Command → Sys (ℕ × Child)
  launch cmd = do
    spawned ← on_os (os.exec cmd)
    child ← lift (ok_or spawned "Failed to spawn TEI process")
    id ← gets (λ s. os.child_id child s.os)
    elim id [
      | none ↦ (do
        modify (λ s. record s { os = os.drop_child child s.os })
        bail "Failed to get PID")
      | some pid ↦ pure (pid, child)
    ]

  drop_old : Option Child → O → O
  drop_old none o = o
  drop_old (some child) o = os.drop_child child o

  -- `HashMap::insert`, which drops the child that it replaces.
  register : ℕ → ℕ → Child → Sys (Unit {0})
  unfolding drop_old
  register self pid child = modify λ s. record {
    processes = put s.processes self pid (some child);
    os = drop_old (s.processes self pid) s.os;
  }

  unfoldable pub spawn : ℕ → SpawnConfig → Sys ProcessHandle
  unfolding log_dir launch register
  spawn self c = do
    dir ← log_dir
    require "Failed to open log file" (os.open_log dir c.instance_name)
    require "Failed to clone log file for stdout" os.try_clone
    require "Failed to clone log file for stderr" os.try_clone
    (pid, child) ← launch (command c)
    register self pid child
    pure (record { id = pid })

  -- SIGTERM, the wait, and SIGKILL when the time is over.
  shut_down : Child → Option ℕ → ℕ → O → O
  shut_down child none timeout o = o
  shut_down child (some pid) timeout o =
      let (exited, o') = os.wait_or_timeout child timeout (os.kill pid Signal.sigterm o) in
      if exited then o' else os.wait child (os.kill pid Signal.sigkill o')

  stop_child : Option Child → ℕ → ProcessHandle → ℕ → Sys (Unit {0})
  unfolding shut_down
  stop_child none self h timeout = pure tt
  stop_child (some child) self h timeout = modify λ s. record {
    processes = put s.processes self h.id none;
    os = os.drop_child child (shut_down child (os.child_id child s.os) timeout s.os);
  }

  unfoldable pub stop : ℕ → ProcessHandle → ℕ → Sys (Unit {0})
  unfolding stop_child
  stop self h timeout = do
    child ← gets (λ s. s.processes self h.id)
    stop_child child self h timeout

  abbrev is_some : Option Child → Bool
  is_some none = false
  is_some (some _) = true

  unfoldable pub is_running : ℕ → ProcessHandle → SystemState O → Bool
  is_running self h s = is_some (s.processes self h.id)

  unfoldable pub pid : ℕ → ProcessHandle → SystemState O → Option ℕ
  pid self h s = elim (s.processes self h.id) [ none ↦ none | some child ↦ os.child_id child s.os ]

  abbrev pub system_manager : ProcessManager (SystemState O)
  system_manager = record { spawn = spawn; stop = stop; is_running = is_running; pid = pid }
