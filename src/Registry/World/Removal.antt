-- ===== src/Registry/World/Removal.antt =====
-- `Registry::remove` of src/registry.rs, branch by branch.
use tei_manager.Base.{
  ◌≡◌, ◌≢◌, inl, inr, String, false, Option, none, some, [], ◌∷◌, ◌++◌, arith, Result, ok, err,
  Option-cases, str_eq_iff,
}
use tei_manager.Base.Dict.{lookup, erase, lookup-erase}
use tei_manager.Instance.{TeiInstance, ProcessManager, Lawful, InstanceStatus, is_running}
use tei_manager.Instance
use tei_manager.Instance.Lifecycle.{stop-Stopped}
use tei_manager.Registry.{RegistryError, not_found, InstanceEvent, take_out, get}
use tei_manager.Registry.World.{World, remove}

module _ {P : Type 0} (pm : ProcessManager P) where
  -- An unknown name changes nothing. A known one is taken out whatever its process does; the event
  -- is sent, and the instance stopped without a process, unless the process manager refuses.
  abbrev pub Removed :
      String → Option TeiInstance → World P → Result RegistryError (Unit {0}) × World P → Type 0
  Removed name none w res = res ≡ (err (not_found name), w)
  Removed name (some i) w (ok _, w') =
      (w'.registry ≡ record w.registry {
        instances = erase name w.registry.instances;
        events = w.registry.events ++ InstanceEvent.removed name ∷ [];
      })
      × ((w'.runtime.cells i.cell).status ≡ InstanceStatus.stopped)
      × (is_running pm i w'.runtime ≡ false)
  Removed name (some i) w (err e, w') =
      (w'.registry ≡ record w.registry { instances = erase name w.registry.instances })
      × ((w'.runtime.cells i.cell).status ≡ InstanceStatus.stopping)
      × (e ≢ not_found name)

module _ {P : Type 0} (pm : ProcessManager P) (laws : Lawful pm) where
  -- With a lawful process manager, `remove` of an unknown name changes nothing. Else the entry
  -- is erased, also where the process cannot be stopped; on success the instance is stopped,
  -- not running, and a removal event is sent, and on a failure it is left stopping and no
  -- event is sent.
  pub remove-Removed :
      (name : String) (w : World P) → Removed pm name (get name w.registry) w (remove pm name w)
  unfolding remove take_out get
  remove-Removed name w = elim (Option-cases (lookup name w.registry.instances)) [
    | inl e ↦ rw e (ground arith)
    | inr (i, e) ↦ rw e (ground (arith, stop-Stopped pm laws i w.runtime))
  ]

  -- A removal that succeeds stopped the instance, and the name is free.
  pub remove_stops :
      (name : String) (w : World P) (i : TeiInstance)
      → get name w.registry ≡ some i
      → (remove pm name w).0 ≡ ok tt
      → ((Instance.stop pm i w.runtime).0 ≡ ok tt)
        × ((remove pm name w).1.runtime ≡ (Instance.stop pm i w.runtime).1)
        × (get name (remove pm name w).1.registry ≡ none)
  unfolding remove take_out get
  remove_stops name w i known done =
      ground (arith, known, done, lookup-erase name name w.registry.instances, str_eq_iff name name)
