-- ===== src/Registry/Tests.antt =====
-- Runs of the registry of src/registry.rs, and theorems about it at concrete inputs.
use tei_manager.Base.{ℕ, ◌≡◌, refl, Bool, true, false, some, [], ◌∷◌, map, arith, ok, ◌==◌, not}
use tei_manager.Base.Dict
use tei_manager.Base.Dict.{lookup}
use tei_manager.Config.{
  InstanceConfig, ManagerConfig, default_instance_config, default_manager_config,
}
use tei_manager.Config.Validate.{Files, validate}
use tei_manager.Config.Validate
use tei_manager.Instance.{TeiInstance}
use tei_manager.Instance.System.{SystemState}
use tei_manager.Instance.Tests.{toy_manager, toy_laws, toy_runtime}
use tei_manager.Registry.Ports.{is_used, find_free_port_in_range, scan, find_free_port, try_offsets}
use tei_manager.Registry.{Registry, RegistryError, new_registry, add, get, take_out}
use tei_manager.Registry
use tei_manager.Registry.Add.{AddOutcome, add-AddOutcome}
use tei_manager.Registry.Invariant.{IsValid, new_registry-IsValid, add-IsValid}
use tei_manager.Registry.Capacity.{validated_auto_add}
use tei_manager.Registry.World.{World, remove}
use tei_manager.Registry.World.Removal.{Removed, remove-Removed}

-- Port 8080 cannot be bound.
abbrev busy : ℕ → Bool
busy port = not (port == 8080)

abbrev pub all_free : ℕ → Bool
all_free port = true

abbrev pub empty : Registry
empty = new_registry (some 2) "ter" 8080 8180

abbrev pub auto : InstanceConfig
auto = record default_instance_config { name = "a" }

abbrev pub one : Registry
one = (add busy auto empty).1

one_port : map (λ i. i.config.port) (Registry.list one) ≡ 8081 ∷ []
unfolding add Registry.list Registry.allocate_port Registry.assign_port Registry.check_conflict
    Registry.check_max Registry.assign_prometheus_port Registry.allocate_prometheus_port
    new_registry Registry.is_port_auto_allocation_enabled Registry.search_start Dict.insert
    Dict.contains_key Dict.lookup find_free_port_in_range scan is_used find_free_port try_offsets
    Registry.find_conflict
one_port = refl

pub empty-IsValid : IsValid empty
empty-IsValid = new_registry-IsValid (some 2) "ter" 8080 8180 (omega arith)

add-AddOutcome_example : AddOutcome busy auto empty (add busy auto empty)
add-AddOutcome_example = add-AddOutcome busy auto empty

add-IsValid_example : IsValid (add busy auto empty).1
add-IsValid_example = add-IsValid busy auto empty empty-IsValid

abbrev toy_files : Files
toy_files = record { file_exists = λ p. true; dir_exists = λ d. true; create_dir_all = λ d. false }

abbrev limited : ManagerConfig
limited = record default_manager_config { max_instances = some 2 }

validated_auto_add_example :
    (i : TeiInstance) × (r' : Registry) × (add all_free auto empty ≡ (ok i, r'))
unfolding new_registry Registry.list Dict.lookup validate Validate.check_capacity
    Validate.check_instances Validate.check_state_dir Validate.check_auth
validated_auto_add_example =
    validated_auto_add toy_files limited 2 all_free empty auto refl refl refl refl empty-IsValid
      (λ port l. refl) (omega arith) refl refl

abbrev toy_world : World (SystemState ℕ)
toy_world = record { registry = one; runtime = toy_runtime }

remove-Removed_example :
    Removed toy_manager "a" (get "a" one) toy_world (remove toy_manager "a" toy_world)
remove-Removed_example = remove-Removed toy_manager toy_laws "a" toy_world
