-- ===== src/Instance/Tests.antt =====
-- Runs of an instance of src/instance.rs on a small operating system, and theorems at concrete
-- inputs.
use tei_manager.Base.{
  ℕ, ◌+◌, ◌≡◌, ◌≢◌, ◌⊎◌, ◌==◌, if◌then◌else◌, not, ok, refl, Bool, true, false, none, some, [], ◌∷◌,
  arith,
}
use tei_manager.Config.{InstanceConfig, default_instance_config}
use tei_manager.Instance.{
  ProcessManager, SpawnConfig, TeiInstance, Runtime, new_cell, start, stop, restart, is_running,
  spawn_config, Lawful,
}
use tei_manager.Instance.System.{
  Os, SystemState, Child, Signal, system_manager, command, prometheus_flag, text,
}
use tei_manager.Instance.System
use tei_manager.Instance.System.Table.{system_manager-Lawful, HasProcesses, stop_kills}
use tei_manager.Instance.Lifecycle.{IsConsistent, lifecycle-IsConsistent, start_twice_leaks}

-- Every call succeeds; the state is the pid of the next process.
abbrev pub toy_os : Os ℕ
toy_os = record {
  log_dir_var = λ o. none;
  create_dir_all = λ d o. (true, o);
  open_log = λ d n o. (true, o);
  try_clone = λ o. (true, o);
  exec = λ c o. (some o, o + 1);
  child_id = λ c o. some c;
  drop_child = λ c o. o;
  kill = λ p s o. o;
  wait = λ c o. o;
  wait_or_timeout = λ c t o. (true, o);
}

abbrev pub toy_manager : ProcessManager (SystemState ℕ)
toy_manager = system_manager toy_os

abbrev pub toy_laws : Lawful toy_manager
toy_laws = system_manager-Lawful toy_os

abbrev pub toy_runtime : Runtime (SystemState ℕ)
toy_runtime = record { cells = λ a. new_cell; procs = record { processes = λ s h. none; os = 100 } }

abbrev pub toy_config : InstanceConfig
toy_config = record default_instance_config { name = "bge"; model_id = "BAAI/bge"; port = 8080 }

abbrev pub toy_instance : TeiInstance
toy_instance = record { config = toy_config; cell = 0 }

abbrev after_start : Runtime (SystemState ℕ)
after_start = (start toy_manager toy_instance "ter" 5 toy_runtime).1

abbrev after_second : Runtime (SystemState ℕ)
after_second = (start toy_manager toy_instance "ter" 6 after_start).1

start_twice_leaks_example :
    let end = (stop toy_manager toy_instance after_second).1 in
    (is_running toy_manager toy_instance end ≡ false)
    × (toy_manager.is_running 0 (record { id = 100 }) end.procs ≡ true)
unfolding start stop System.spawn System.stop
start_twice_leaks_example =
    start_twice_leaks toy_manager toy_laws toy_instance "ter" 5 6 toy_runtime after_start
      after_second _ (record { id = 100 }) (record { id = 101 }) refl refl refl refl (omega arith)
      refl

lifecycle-IsConsistent_example :
    IsConsistent ((start toy_manager toy_instance "ter" 7 toy_runtime).1.cells 0)
    × IsConsistent ((stop toy_manager toy_instance toy_runtime).1.cells 0)
    × IsConsistent ((restart toy_manager toy_instance "ter" 7 toy_runtime).1.cells 0)
lifecycle-IsConsistent_example =
    lifecycle-IsConsistent toy_manager toy_laws toy_instance "ter" 7 toy_runtime refl

-- An operating system whose state tells which children live; they do not heed SIGTERM.
abbrev deaf_kill : ℕ → Signal → (Child → Bool) → Child → Bool
deaf_kill pid Signal.sigterm o = o
deaf_kill pid Signal.sigkill o = λ c. if pid == c then false else o c

abbrev deaf_os : Os (Child → Bool)
deaf_os = record {
  log_dir_var = λ o. none;
  create_dir_all = λ d o. (true, o);
  open_log = λ d n o. (true, o);
  try_clone = λ o. (true, o);
  exec = λ c o. (some 7, o);
  child_id = λ c o. if o c then some c else none;
  drop_child = λ c o. o;
  kill = deaf_kill;
  wait = λ c o. o;
  wait_or_timeout = λ c t o. (not (o c), o);
}

deaf_os-HasProcesses : HasProcesses deaf_os
deaf_os-HasProcesses = record {
  alive = λ c o. o c;
  process_id = λ c. c;
  has_id = λ c o pid e. ground (arith, e);
  reaped = λ c o e. ground (arith, e);
  exited = λ c t o e. ground (arith, e);
  killed = λ c o. ground arith;
  dropped = λ c o e. e;
}

abbrev one_child : SystemState (Child → Bool)
one_child = record {
  processes = λ self k. if self == 0 then (if k == 7 then some 7 else none) else none;
  os = λ c. true;
}

stop_kills_example :
    let (res, s') = System.stop deaf_os 0 (record { id = 7 }) 30 one_child in
    (res ≡ ok tt)
    × ((child : Child)
        → one_child.processes 0 7 ≡ some child
        → deaf_os-HasProcesses.alive child s'.os ≡ false)
    × (s'.processes 0 7 ≡ none)
    × ((other k : ℕ) → (0 ≢ other) ⊎ (7 ≢ k) → s'.processes other k ≡ one_child.processes other k)
stop_kills_example = stop_kills deaf_os deaf_os-HasProcesses 0 (record { id = 7 }) 30 one_child

abbrev flagged : SpawnConfig
flagged = record (spawn_config toy_config "ter") {
  prometheus_port = some 9100;
  extra_args = prometheus_flag ∷ "9200" ∷ [];
}
