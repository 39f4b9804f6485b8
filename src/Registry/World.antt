-- ===== src/Registry/World.antt =====
-- The registry of src/registry.rs together with the instances' processes: `add` allocates the
-- new instance's cell, and `remove` stops the process of what it takes out.
pub mod Removal
pub mod Addition
use tei_manager.Base.{
  ℕ, String, Option, none, some, List, [], ◌∷◌, ◌++◌, Bool, Result, ok, err, Action, pure, gets,
  modify, map_err, ◌>>=◌, ◌>>◌,
}
use tei_manager.Config.{InstanceConfig}
use tei_manager.Instance.{
  TeiInstance, Runtime, ProcessManager, AnyError, Cell, new_cell, write_cell, set_cell,
}
use tei_manager.Instance
use tei_manager.Registry.{Registry, RegistryError, stop_failed, InstanceEvent, add, take_out}

pub record World (P : Type 0) : Type 0 where
  pub registry : Registry
  pub runtime : Runtime P

module _ {P : Type 0} where
  abbrev pub on_registry :
      {A : Type 0} → Action Registry RegistryError A → Action (World P) RegistryError A
  on_registry m w = let (res, r) = m w.registry in (res, record w { registry = r })

  abbrev pub on_runtime :
      {E A : Type 0} → (AnyError → E) → Action (Runtime P) AnyError A → Action (World P) E A
  on_runtime f m w = let (res, r) = m w.runtime in (map_err f res, record w { runtime = r })

  abbrev send : InstanceEvent → World P → World P
  send e w = record w { registry = record w.registry { events = w.registry.events ++ e ∷ [] } }

  -- `Registry::add`, with the locks of `TeiInstance::new`.
  unfoldable pub add_instance :
      (ℕ → Bool) → InstanceConfig → Action (World P) RegistryError TeiInstance
  add_instance free c = do
    i ← on_registry (add free c)
    modify (λ w. record w { runtime = set_cell i.cell new_cell w.runtime })
    pure i

  -- `Registry::remove`: the lock is released before the instance is stopped.
  unfoldable pub remove : ProcessManager P → String → Action (World P) RegistryError (Unit {0})
  remove pm name = do
    i ← on_registry (take_out name)
    on_runtime stop_failed (Instance.stop pm i)
    modify (send (InstanceEvent.removed name))
