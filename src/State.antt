-- ===== src/State.antt =====
-- src/state.rs: saving the instances' configurations, loading them, and restoring the instances.
-- The TOML writer and reader are parameters; what the operating system answers at each step is an
-- argument. The readiness of a started instance is the answer of its background task.
pub mod Storage
pub mod Guarded
pub mod RoundTrip
pub mod Tests
use tei_manager.Base.{
  ℕ, ◌+◌, ◌≡◌, String, Bool, true, false, Option, none, some, List, [], ◌∷◌, ◌++◌, map, Result, ok,
  err, if◌then◌else◌, ok_or, map_err,
}
use tei_manager.Config.{FilePath, InstanceConfig, Timestamp}
use tei_manager.Instance.{TeiInstance, Runtime, ProcessManager, AnyError, start}
use tei_manager.Registry.{Registry, RegistryError, list}
use tei_manager.Registry.World.{World, add_instance, on_runtime}

pub record SavedState : Type 0 where
  pub last_updated : Timestamp
  pub instances : List InstanceConfig

abbrev pub default_saved_state : SavedState
default_saved_state = record { last_updated = 0; instances = [] }

pub data StateError : Type 0 where
  already_in_progress : StateError
  serialize_failed : StateError
  corrupted : StateError
  storage : AnyError → StateError

-- `trait StorageBackend`, over its state `D`.
pub record StorageBackend (D : Type 0) : Type 0 where
  pub save : FilePath → String → D → Result AnyError (Unit {0}) × D
  pub load : FilePath → D → Result AnyError (Option String)

-- The `toml` crate on `SavedState`.
pub record Toml : Type 0 where
  pub to_string_pretty : SavedState → Option String
  pub from_str : String → Option SavedState

-- Documented of the crate: what it writes it reads back.
abbrev pub ReadsBack : Toml → Type 0
ReadsBack toml =
    (s : SavedState) (text : String)
    → toml.to_string_pretty s ≡ some text
    → toml.from_str text ≡ some s

pub record StateManager : Type 0 where
  pub state_file : FilePath
  pub tei_binary_path : String

-- The state that a manager works on: the instances, the storage, and its restore flag.
pub record Managed (P D : Type 0) : Type 0 where
  pub world : World P
  pub disk : D
  pub restore_in_progress : Bool

-- What `restore` logs when it is done.
pub record RestoreReport : Type 0 where
  pub restored : ℕ
  pub failed : ℕ
  pub readiness_failed : ℕ

unfoldable pub saved_state : Timestamp → Registry → SavedState
saved_state now r = record { last_updated = now; instances = map (λ i. i.config) (list r) }

module _ {D : Type 0} (storage : StorageBackend D) (toml : Toml) (sm : StateManager) where
  unfoldable pub save_text : Option String → D → Result StateError (Unit {0}) × D
  save_text none disk = (err StateError.serialize_failed, disk)
  save_text (some text) disk =
      let (res, disk') = storage.save sm.state_file text disk in
      (map_err StateError.storage res, disk')

  -- `StateManager::save`.
  unfoldable pub save : Timestamp → Registry → D → Result StateError (Unit {0}) × D
  unfolding save_text
  save now r disk = save_text (toml.to_string_pretty (saved_state now r)) disk

  unfoldable pub read_text : Result AnyError (Option String) → Result StateError SavedState
  read_text (err e) = err (StateError.storage e)
  read_text (ok none) = ok default_saved_state
  read_text (ok (some text)) = ok_or (toml.from_str text) StateError.corrupted

  -- `StateManager::load`.
  unfoldable pub load : D → Result StateError SavedState
  unfolding read_text
  load disk = read_text (storage.load sm.state_file disk)

module _ {P : Type 0} (pm : ProcessManager P) (free : ℕ → Bool) (binary : String)
    (now : Timestamp) where
  -- What one round of the restore loop leaves: the instance if it was started, and the world.
  unfoldable pub restore_one : InstanceConfig → World P → Option TeiInstance × World P
  restore_one c w =
      let (added, w') = add_instance free c w in
      elim added [
        | err e ↦ (none, w')
        | ok i ↦
            let (done, r) = start pm i binary now w'.runtime in
            let w'' : World P = record w' { runtime = r } in
            elim done [ ok _ ↦ (some i, w'') | err e ↦ (none, w'') ]
      ]

  unfoldable pub record_round :
      Option TeiInstance → RestoreReport × List TeiInstance → RestoreReport × List TeiInstance
  record_round none (report, tasks) = (record report { failed = report.failed + 1 }, tasks)
  record_round (some i) (report, tasks) =
      (record report { restored = report.restored + 1 }, tasks ++ i ∷ [])

  unfoldable pub restore_loop :
      List InstanceConfig
      → RestoreReport × List TeiInstance
      → World P
      → (RestoreReport × List TeiInstance) × World P
  unfolding record_round
  restore_loop [] acc w = (acc, w)
  restore_loop (c ∷ cs) acc w =
      let (started, w') = restore_one c w in restore_loop cs (record_round started acc) w'

-- The tasks that wait for the started instances, joined one after the other: `ready` runs one.
pub join_tasks :
    {P : Type 0}
    → (TeiInstance → Runtime P → Bool × Runtime P)
    → List TeiInstance
    → RestoreReport
    → Runtime P
    → RestoreReport × Runtime P
join_tasks ready [] report r = (report, r)
join_tasks ready (i ∷ is) report r =
    let (done, r') = ready i r in
    join_tasks ready is
      (if done then report else record report { readiness_failed = report.readiness_failed + 1 }) r'

abbrev pub empty_report : RestoreReport
empty_report = record { restored = 0; failed = 0; readiness_failed = 0 }

module _ {P D : Type 0} (storage : StorageBackend D) (toml : Toml) (sm : StateManager)
    (pm : ProcessManager P) (free : ℕ → Bool) (now : Timestamp)
    (ready : TeiInstance → Runtime P → Bool × Runtime P) where
  -- Under the guard, once the state is loaded.
  unfoldable pub restore_instances : Bool → List InstanceConfig → World P → RestoreReport × World P
  restore_instances wait_for_ready cs w =
      let (acc, w') = restore_loop pm free sm.tei_binary_path now cs (empty_report, []) w in
      if wait_for_ready
      then (let (report, r) = join_tasks ready acc.1 acc.0 w'.runtime in
          (report, record w' { runtime = r }))
      else (acc.0, w')

  unfoldable pub restore_loaded :
      Bool → Result StateError SavedState → World P → Result StateError RestoreReport × World P
  unfolding restore_instances
  restore_loaded wait (err e) w = (err e, w)
  restore_loaded wait (ok state) w =
      let (report, w') = restore_instances wait state.instances w in (ok report, w')

  -- The body that the guard covers; the guard is released when it is left, by whatever way.
  unfoldable pub restore_guarded :
      Bool → Managed P D → Result StateError RestoreReport × Managed P D
  unfolding restore_loaded
  restore_guarded wait m =
      let (res, w) = restore_loaded wait (load storage toml sm m.disk) m.world in
      (res, record m { world = w; restore_in_progress = false })

  -- `StateManager::restore_with_options`: the exchange of the flag, and the body.
  unfoldable pub restore_with_options :
      Bool → Managed P D → Result StateError RestoreReport × Managed P D
  unfolding restore_guarded
  restore_with_options wait m =
      if m.restore_in_progress
      then (err StateError.already_in_progress, m)
      else restore_guarded wait (record m { restore_in_progress = true })
