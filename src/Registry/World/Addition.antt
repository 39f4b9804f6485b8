-- ===== src/Registry/World/Addition.antt =====
-- `Registry::add` of src/registry.rs with the locks of the new instance.
use tei_manager.Base.{ℕ, ◌≡◌, Bool, arith, Result, ok, err}
use tei_manager.Config.{InstanceConfig}
use tei_manager.Instance.{TeiInstance, new_cell}
use tei_manager.Registry.{add, RegistryError}
use tei_manager.Registry.World.{World, add_instance}

pub add_instance-registry :
    {P : Type 0} (free : ℕ → Bool) (c : InstanceConfig) (w : World P)
    → ((add_instance free c w).1.registry ≡ (add free c w.registry).1)
      × ((add_instance free c w).0 ≡ (add free c w.registry).0)
unfolding add_instance
add_instance-registry free c w = ground arith

-- The cell of a new instance is fresh, and no other cell changes.
abbrev pub Allocated : {P : Type 0} → World P → Result RegistryError TeiInstance × World P → Type 0
Allocated w (ok i, w') = w'.runtime.cells i.cell ≡ new_cell
Allocated w (err e, w') = w'.runtime ≡ w.runtime

pub add_instance-Allocated :
    {P : Type 0} (free : ℕ → Bool) (c : InstanceConfig) (w : World P)
    → Allocated w (add_instance free c w)
unfolding add_instance
add_instance-Allocated free c w = ground arith
