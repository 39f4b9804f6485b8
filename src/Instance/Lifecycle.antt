-- ===== src/Instance/Lifecycle.antt =====
-- `start`, `stop` and `restart` of src/instance.rs, on success and on failure.
use tei_manager.Base.{
  ℕ, ◌+◌, ◌%◌, ◌≡◌, ◌≢◌, ◌⊎◌, inr, String, true, false, none, some, arith, Result, ok, err,
}
use tei_manager.Config.{Timestamp}
use tei_manager.Instance.{
  ProcessHandle, ProcessManager, Lawful, InstanceStatus, Cell, TeiInstance, Runtime, AnyError,
  u32_mod, start, stop, restart, is_running, spawn_config,
}

-- What a status says of the handle.
abbrev pub IsConsistent : Cell → Type 0
IsConsistent c = elim c.status [
  | InstanceStatus.stopped ↦ c.process_handle ≡ none
  | InstanceStatus.stopping ↦ Unit
  | InstanceStatus.starting ↦ c.process_handle ≢ none
  | InstanceStatus.running ↦ Unit
  | InstanceStatus.failed ↦ Unit
]

pub is_running_none :
    {P : Type 0} (pm : ProcessManager P) (i : TeiInstance) (r : Runtime P)
    → (r.cells i.cell).process_handle ≡ none
    → is_running pm i r ≡ false
unfolding is_running
is_running_none pm i r h = ground arith

abbrev pub cell_of : {P : Type 0} → TeiInstance → Runtime P → Cell
cell_of i r = r.cells i.cell

module _ {P : Type 0} (pm : ProcessManager P) where
  -- By how `start` ends: it spawned a process and the instance is starting, or nothing was written.
  abbrev pub Started :
      TeiInstance → Timestamp → Runtime P → Result AnyError (Unit {0}) × Runtime P → Type 0
  Started i now r (ok _, r') =
      ((cell_of i r').status ≡ InstanceStatus.starting)
      × (is_running pm i r' ≡ true)
      × ((cell_of i r').stats.started_at ≡ some now)
      × ((cell_of i r').stats.restarts ≡ (cell_of i r).stats.restarts)
      × ((cell_of i r').stats.health_check_failures ≡ (cell_of i r).stats.health_check_failures)
  Started i now r (err _, r') = r'.cells ≡ r.cells

  -- By how `stop` ends: the instance is stopped, without a process, or the manager refused and the
  -- instance is left stopping, its handle lost.
  abbrev pub Stopped : TeiInstance → Runtime P → Result AnyError (Unit {0}) × Runtime P → Type 0
  Stopped i r (ok _, r') =
      ((cell_of i r').status ≡ InstanceStatus.stopped)
      × ((cell_of i r').process_handle ≡ none)
      × (is_running pm i r' ≡ false)
      × ((cell_of i r').stats ≡ (cell_of i r).stats)
  Stopped i r (err _, r') =
      ((cell_of i r').status ≡ InstanceStatus.stopping)
      × ((cell_of i r').process_handle ≡ none)
      × ((cell_of i r).process_handle ≢ none)
      × ((cell_of i r').stats ≡ (cell_of i r).stats)

  abbrev pub Restarted :
      TeiInstance → Timestamp → Runtime P → Result AnyError (Unit {0}) × Runtime P → Type 0
  Restarted i now r (ok _, r') =
      ((cell_of i r').status ≡ InstanceStatus.starting)
      × (is_running pm i r' ≡ true)
      × ((cell_of i r').stats.started_at ≡ some now)
      × ((cell_of i r').stats.restarts ≡ ((cell_of i r).stats.restarts + 1) % u32_mod)
      × ((cell_of i r').stats.health_check_failures ≡ (cell_of i r).stats.health_check_failures)
  Restarted i now r (err _, r') =
      ((cell_of i r').process_handle ≡ none)
      × (((cell_of i r').status ≡ InstanceStatus.stopped)
          ⊎ ((cell_of i r').status ≡ InstanceStatus.stopping))
      × ((cell_of i r').stats ≡ (cell_of i r).stats)

module _ {P : Type 0} (pm : ProcessManager P) (laws : Lawful pm) where
  -- A `start` that succeeds leaves the instance starting, with a running process and the time
  -- of the start, and keeps the counts; one that fails writes nothing to any instance. The
  -- process manager is lawful.
  pub start-Started :
      (i : TeiInstance) (binary : String) (now : Timestamp) (r : Runtime P)
      → Started pm i now r (start pm i binary now r)
  unfolding start is_running
  start-Started i binary now r =
      ground (arith, laws.spawn_runs i.cell (spawn_config i.config binary) r.procs)

  -- A `stop` that succeeds leaves the instance stopped, without a process; one that the
  -- manager refuses leaves it stopping, with its handle lost. Neither changes the statistics.
  -- The process manager is lawful.
  pub stop-Stopped : (i : TeiInstance) (r : Runtime P) → Stopped pm i r (stop pm i r)
  unfolding stop is_running
  stop-Stopped i r = ground arith

  -- The process that the instance held is not running after a successful `stop` by a lawful
  -- manager.
  pub stop_ends_process :
      (i : TeiInstance) (r r' : Runtime P) (h : ProcessHandle)
      → (cell_of i r).process_handle ≡ some h
      → stop pm i r ≡ (ok tt, r')
      → pm.is_running i.cell h r'.procs ≡ false
  unfolding stop
  stop_ends_process i r r' h held e = ground (arith, laws.stop_ends i.cell h 30 r.procs)

  -- A `restart` that succeeds leaves a running process, the status starting and one more
  -- restart counted; one that fails leaves no process, the status stopped or stopping, and the
  -- statistics as they were. The process manager is lawful.
  pub restart-Restarted :
      (i : TeiInstance) (binary : String) (now : Timestamp) (r : Runtime P)
      → Restarted pm i now r (restart pm i binary now r)
  unfolding restart is_running
  restart-Restarted i binary now r =
      ground (arith, stop-Stopped i r, start-Started i binary now (stop pm i r).1)

  -- No operation writes another instance's cell.
  pub other_cells :
      (i : TeiInstance) (binary : String) (now : Timestamp) (r : Runtime P) (a : ℕ)
      → i.cell ≢ a
      → ((start pm i binary now r).1.cells a ≡ r.cells a)
        × ((stop pm i r).1.cells a ≡ r.cells a)
        × ((restart pm i binary now r).1.cells a ≡ r.cells a)
  unfolding start stop restart
  other_cells i binary now r a apart = ground arith

  -- With a lawful process manager `start`, `stop` and `restart`, failing or not, keep the
  -- handle in step with the status: a stopped instance has none, and a starting one has one.
  pub lifecycle-IsConsistent :
      (i : TeiInstance) (binary : String) (now : Timestamp) (r : Runtime P)
      → IsConsistent (cell_of i r)
      → IsConsistent (cell_of i (start pm i binary now r).1)
        × IsConsistent (cell_of i (stop pm i r).1)
        × IsConsistent (cell_of i (restart pm i binary now r).1)
  unfolding start stop restart
  lifecycle-IsConsistent i binary now r c = ground arith

  -- `start` has no guard: started twice by a lawful manager that gives out two handles, an
  -- instance forgets its first process, and a successful `stop` leaves that running.
  pub start_twice_leaks :
      (i : TeiInstance) (binary : String) (now later : Timestamp) (r r₁ r₂ r₃ : Runtime P)
      (first second : ProcessHandle)
      → start pm i binary now r ≡ (ok tt, r₁)
      → (cell_of i r₁).process_handle ≡ some first
      → start pm i binary later r₁ ≡ (ok tt, r₂)
      → (cell_of i r₂).process_handle ≡ some second
      → second.id ≢ first.id
      → stop pm i r₂ ≡ (ok tt, r₃)
      → (is_running pm i r₃ ≡ false) × (pm.is_running i.cell first r₃.procs ≡ true)
  unfolding start stop is_running
  start_twice_leaks i binary now later r r₁ r₂ r₃ first second e₁ h₁ e₂ h₂ apart e₃ = ground (
    arith,
    laws.spawn_runs i.cell (spawn_config i.config binary) r.procs,
    laws.spawn_keeps i.cell (spawn_config i.config binary) r₁.procs i.cell first,
    laws.stop_keeps i.cell second 30 r₂.procs i.cell first (inr apart),
  )
