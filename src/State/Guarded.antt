-- ===== src/State/Guarded.antt =====
-- The guard of `restore_with_options` in src/state.rs, and what its report counts.
use tei_manager.Base.{
  ℕ, ◌+◌, ◌≤◌, ◌≡◌, ◌⊎◌, inl, inr, refl, String, Bool, true, false, Option, none, some, List, [],
  ◌∷◌, arith, Result, ok, err, length, length-append, ◌∙◌, Bool-cases,
}
use tei_manager.Config.{InstanceConfig, Timestamp}
use tei_manager.Instance.{TeiInstance, Runtime, ProcessManager}
use tei_manager.Registry.{add}
use tei_manager.Registry.Invariant.{IsValid, add-IsValid}
use tei_manager.Registry.World.{World}
use tei_manager.Registry.World.Addition.{add_instance-registry}
use tei_manager.State.{
  StorageBackend, Toml, StateManager, StateError, SavedState, Managed, RestoreReport, load,
  restore_one, record_round, restore_loop, join_tasks, restore_instances, restore_loaded,
  restore_guarded, restore_with_options, empty_report,
}

module _ {P : Type 0} (pm : ProcessManager P) (free : ℕ → Bool) (binary : String)
    (now : Timestamp) where
  -- One round changes the registry by its `add`, whether or not the instance starts.
  pub restore_one-registry :
      (c : InstanceConfig) (w : World P)
      → (restore_one pm free binary now c w).1.registry ≡ (add free c w.registry).1
  unfolding restore_one
  restore_one-registry c w = ground (arith, add_instance-registry free c w)

  restore_loop-IsValid :
      (cs : List InstanceConfig) (acc : RestoreReport × List TeiInstance) (w : World P)
      → IsValid w.registry
      → IsValid (restore_loop pm free binary now cs acc w).1.registry
  unfolding restore_loop
  restore_loop-IsValid [] acc w v = v
  restore_loop-IsValid (c ∷ cs) acc w v =
      restore_loop-IsValid cs _ (restore_one pm free binary now c w).1
        (rw (restore_one-registry c w) (add-IsValid free c w.registry v))

  abbrev tally : RestoreReport → ℕ
  tally report = report.restored + report.failed

  record_round_counts :
      (started : Option TeiInstance) (report : RestoreReport) (tasks : List TeiInstance)
      → report.restored ≡ length tasks
      → let (report', tasks') = record_round pm free binary now started (report, tasks) in
        (tally report' ≡ tally report + 1)
        × (report'.restored ≡ length tasks')
        × (report'.readiness_failed ≡ report.readiness_failed)
  unfolding record_round
  record_round_counts none report tasks e = ground arith
  record_round_counts (some i) report tasks e = ground (arith, length-append tasks (i ∷ []))

  -- Each configuration is restored or failed, and a task waits for each that is restored.
  restore_loop_counts :
      (cs : List InstanceConfig) (report : RestoreReport) (tasks : List TeiInstance) (w : World P)
      → report.restored ≡ length tasks
      → let (report', tasks') = (restore_loop pm free binary now cs (report, tasks) w).0 in
        (tally report' ≡ tally report + length cs)
        × (report'.restored ≡ length tasks')
        × (report'.readiness_failed ≡ report.readiness_failed)
  unfolding restore_loop
  restore_loop_counts [] report tasks w e = ground arith
  restore_loop_counts (c ∷ cs) report tasks w e =
      let (started, w') = restore_one pm free binary now c w in
      let (report', tasks') = record_round pm free binary now started (report, tasks) in
      let step = record_round_counts started report tasks e in
      let rest = restore_loop_counts cs report' tasks' w' step.1 in
      (omega (arith, rest.0, step.0), rest.1, rest.2 ∙ step.2)

module _ {P : Type 0} (ready : TeiInstance → Runtime P → Bool × Runtime P) where
  join_tasks_counts :
      (tasks : List TeiInstance) (report : RestoreReport) (r : Runtime P)
      → let report' = (join_tasks ready tasks report r).0 in
        (report'.restored ≡ report.restored)
        × (report'.failed ≡ report.failed)
        × (report'.readiness_failed ≤ report.readiness_failed + length tasks)
  unfolding join_tasks
  join_tasks_counts [] report r = ground arith
  join_tasks_counts (i ∷ is) report r = ground (
    arith,
    join_tasks_counts is report (ready i r).1,
    join_tasks_counts is (record report { readiness_failed = report.readiness_failed + 1 })
        (ready i r).1,
  )

module _ {P D : Type 0} where
  -- How a restore ends when the state file could be read, and when it could not.
  abbrev pub RestoreEnds :
      Managed P D
      → Result StateError SavedState
      → Result StateError RestoreReport × Managed P D
      → Type 0
  RestoreEnds m (err e) (res, m') = (res ≡ err e) × (m'.world ≡ m.world)
  RestoreEnds m (ok state) (ok report, m') =
      (report.restored + report.failed ≡ length state.instances)
      × (report.readiness_failed ≤ report.restored)
  RestoreEnds m (ok state) (err e, m') = ⊥

module _ {P D : Type 0} (storage : StorageBackend D) (toml : Toml) (sm : StateManager)
    (pm : ProcessManager P) (free : ℕ → Bool) (now : Timestamp)
    (ready : TeiInstance → Runtime P → Bool × Runtime P) where
  restore_instances_counts :
      (wait : Bool) (cs : List InstanceConfig) (w : World P)
      → let report = (restore_instances storage toml sm pm free now ready wait cs w).0 in
        (report.restored + report.failed ≡ length cs) × (report.readiness_failed ≤ report.restored)
  unfolding restore_instances
  restore_instances_counts wait cs w =
      let (acc, w') = restore_loop pm free sm.tei_binary_path now cs (empty_report, []) w in
      ground (
        arith,
        restore_loop_counts pm free sm.tei_binary_path now cs empty_report [] w refl,
        join_tasks_counts ready acc.1 acc.0 w'.runtime,
      )

  restore_loaded_ends :
      (wait : Bool) (m : Managed P D) (loaded : Result StateError SavedState)
      → load storage toml sm m.disk ≡ loaded
      → m.restore_in_progress ≡ false
      → RestoreEnds m loaded (restore_with_options storage toml sm pm free now ready wait m)
  unfolding restore_with_options
  restore_loaded_ends wait m (err e) l f = ground arith
  restore_loaded_ends wait m (ok state) l f =
      ground (arith, restore_instances_counts wait state.instances m.world)

  -- A restore is refused, with nothing changed, while another is in progress. Any other releases
  -- the flag however it ends and leaves the storage alone; if the state file cannot be read it
  -- fails and restores nothing, and else it succeeds and accounts for every saved instance.
  pub restore_guard :
      (wait : Bool) (m : Managed P D)
      → let res = restore_with_options storage toml sm pm free now ready wait m in
        ((m.restore_in_progress ≡ true) × (res ≡ (err StateError.already_in_progress, m)))
        ⊎ ((m.restore_in_progress ≡ false)
            × (res.1.restore_in_progress ≡ false)
            × (res.1.disk ≡ m.disk)
            × RestoreEnds m (load storage toml sm m.disk) res)
  unfolding restore_with_options
  restore_guard wait m = elim (Bool-cases m.restore_in_progress) [
    | inl busy ↦ inl (busy, ground arith)
    | inr idle ↦ inr (
      idle,
      ground arith,
      ground arith,
      restore_loaded_ends wait m (load storage toml sm m.disk) refl idle,
    )
  ]

  pub restore_instances-registry :
      (wait : Bool) (cs : List InstanceConfig) (w : World P)
      → (restore_instances storage toml sm pm free now ready wait cs w).1.registry
        ≡ (restore_loop pm free sm.tei_binary_path now cs (empty_report, []) w).1.registry
  unfolding restore_instances
  restore_instances-registry wait cs w = ground arith

  pub restore-registry :
      (wait : Bool) (m : Managed P D) (state : SavedState)
      → m.restore_in_progress ≡ false
      → load storage toml sm m.disk ≡ ok state
      → (restore_with_options storage toml sm pm free now ready wait m).1.world.registry
        ≡ (restore_loop pm free sm.tei_binary_path now state.instances
            (empty_report, [])
            m.world).1.registry
  unfolding restore_with_options
  restore-registry wait m state idle l =
      ground (arith, restore_instances-registry wait state.instances m.world)

  restore_loaded-IsValid :
      (wait : Bool) (loaded : Result StateError SavedState) (w : World P)
      → IsValid w.registry
      → IsValid (restore_loaded storage toml sm pm free now ready wait loaded w).1.registry
  unfolding restore_loaded
  restore_loaded-IsValid wait (err e) w v = v
  restore_loaded-IsValid wait (ok state) w v =
      rw (restore_instances-registry wait state.instances w)
        (restore_loop-IsValid pm free sm.tei_binary_path now state.instances (empty_report, []) w v)

  -- A restore keeps a valid registry valid, whatever the state file holds and however it ends.
  pub restore-IsValid :
      (wait : Bool) (m : Managed P D)
      → IsValid m.world.registry
      → IsValid (restore_with_options storage toml sm pm free now ready wait m).1.world.registry
  unfolding restore_with_options restore_guarded
  restore-IsValid wait m v = elim (Bool-cases m.restore_in_progress) [
    | inl busy ↦ rw busy v
    | inr idle ↦ rw idle (restore_loaded-IsValid wait (load storage toml sm m.disk) m.world v)
  ]
