-- ===== src/Instance/System/Table.antt =====
-- The table of children of `SystemProcessManager` in src/instance.rs.
use tei_manager.Base.{
  ℕ, ◌≡◌, ◌≢◌, ◌⊎◌, refl, subst, Bool, true, false, Option, none, some, arith, ok,
}
use tei_manager.Instance.{SpawnConfig, ProcessHandle, Lawful, Runs, Ended}
use tei_manager.Instance.System.{
  Os, Child, Signal, SystemState, shut_down, spawn, stop, is_running, system_manager,
}

module _ {O : Type 0} (os : Os O) where
  spawn-Runs :
      (self : ℕ) (c : SpawnConfig) (s : SystemState O)
      → Runs (system_manager os) self (spawn os self c s)
  unfolding spawn is_running
  spawn-Runs self c s = ground arith

  spawn_keeps :
      (self : ℕ) (c : SpawnConfig) (s : SystemState O) (other : ℕ) (k : ProcessHandle)
      → is_running os other k s ≡ true
      → is_running os other k (spawn os self c s).1 ≡ true
  unfolding spawn is_running
  spawn_keeps self c s other k e = ground arith

  stop_ends :
      (self : ℕ) (h : ProcessHandle) (timeout : ℕ) (s : SystemState O)
      → Ended (system_manager os) self h (stop os self h timeout s)
  unfolding stop is_running
  stop_ends self h timeout s = ground arith

  stop_keeps :
      (self : ℕ) (h : ProcessHandle) (timeout : ℕ) (s : SystemState O) (other : ℕ)
      (k : ProcessHandle)
      → (self ≢ other) ⊎ (h.id ≢ k.id)
      → is_running os other k (stop os self h timeout s).1 ≡ is_running os other k s
  unfolding stop is_running
  stop_keeps self h timeout s other k apart = ground arith

  -- For every operating system, the system process manager is lawful as far as its own table goes,
  -- which is what `is_running` reads: what it spawns is entered and stays so until it is stopped, a
  -- stopped handle is not in it, and neither operation takes out another instance's entry.
  pub system_manager-Lawful : Lawful (system_manager os)
  system_manager-Lawful = record {
    spawn_runs = spawn-Runs;
    spawn_keeps = spawn_keeps;
    stop_ends = stop_ends;
    stop_keeps = stop_keeps;
  }

-- What tokio and the operating system document of a child: its id is the process's, and there is
-- none once it was waited for; a wait that returns first means that it has exited; the process is gone
-- when the wait after a SIGKILL to it returns; and dropping the handle brings no process back.
pub record HasProcesses {O : Type 0} (os : Os O) : Type 0 where
  pub alive : Child → O → Bool
  pub process_id : Child → ℕ
  pub has_id :
      (child : Child) (o : O) (pid : ℕ) → os.child_id child o ≡ some pid → pid ≡ process_id child
  pub reaped : (child : Child) (o : O) → os.child_id child o ≡ none → alive child o ≡ false
  pub exited :
      (child : Child) (timeout : ℕ) (o : O)
      → (os.wait_or_timeout child timeout o).0 ≡ true
      → alive child (os.wait_or_timeout child timeout o).1 ≡ false
  pub killed :
      (child : Child) (o : O)
      → alive child (os.wait child (os.kill (process_id child) Signal.sigkill o)) ≡ false
  pub dropped :
      (child : Child) (o : O) → alive child o ≡ false → alive child (os.drop_child child o) ≡ false

module _ {O : Type 0} (os : Os O) (p : HasProcesses os) where
  shut_down_kills :
      (child : Child) (timeout : ℕ) (o : O)
      → p.alive child (shut_down os child (os.child_id child o) timeout o) ≡ false
  unfolding shut_down
  shut_down_kills child timeout o = by_id (os.child_id child o) refl
    where
      by_id :
          (id : Option ℕ)
          → os.child_id child o ≡ id
          → p.alive child (shut_down os child id timeout o) ≡ false
      by_id none e = p.reaped child o e
      by_id (some pid) e =
          let asked = os.kill pid Signal.sigterm o in
          let waited = (os.wait_or_timeout child timeout asked).1 in
          ground
            (arith, p.has_id child o pid e, p.exited child timeout asked, p.killed child waited)

  -- `stop` of the system process manager succeeds, and the process of the child that its table has for
  -- the handle is gone afterwards, whether or not it heeds SIGTERM in time; the handle is no longer in
  -- the table, and every other entry is as it was. What tokio and the operating system document of
  -- children is assumed.
  pub stop_kills :
      (self : ℕ) (h : ProcessHandle) (timeout : ℕ) (s : SystemState O)
      → let (res, s') = stop os self h timeout s in
        (res ≡ ok tt)
        × ((child : Child) → s.processes self h.id ≡ some child → p.alive child s'.os ≡ false)
        × (s'.processes self h.id ≡ none)
        × ((other k : ℕ) → (self ≢ other) ⊎ (h.id ≢ k) → s'.processes other k ≡ s.processes other k)
  unfolding stop
  stop_kills self h timeout s = by_entry (s.processes self h.id) refl
    where
      Goal : Type 0
      Goal =
          let (res, s') = stop os self h timeout s in
          (res ≡ ok tt)
          × ((child : Child) → s.processes self h.id ≡ some child → p.alive child s'.os ≡ false)
          × (s'.processes self h.id ≡ none)
          × ((other k : ℕ)
              → (self ≢ other) ⊎ (h.id ≢ k)
              → s'.processes other k ≡ s.processes other k)

      by_entry : (entry : Option Child) → s.processes self h.id ≡ entry → Goal
      by_entry none e = (
        ground (arith, e),
        λ child held. ground (arith, e, held),
        ground (arith, e),
        λ other k apart. ground (arith, e, apart),
      )
      by_entry (some child) e =
          let dead = shut_down_kills child timeout s.os in
          (
            ground (arith, e),
            λ other held.
                let same : child ≡ other = ground (arith, e, held) in
                subst (λ c. p.alive c (stop os self h timeout s).1.os ≡ false) same
                  (ground (arith, e, p.dropped child _ dead)),
            ground (arith, e),
            λ other k apart. ground (arith, e, apart),
          )
