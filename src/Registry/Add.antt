-- ===== src/Registry/Add.antt =====
-- `Registry::add` of src/registry.rs, branch by branch.
use tei_manager.Base.{
  ℕ, ◌+◌, ◌≤◌, ◌<◌, ◌≡◌, ◌≢◌, ◌⊎◌, Bool, true, Option, none, some, [], ◌∷◌, ◌++◌, arith, Result, ok,
  err, length,
}
use tei_manager.Base.Dict.{lookup, contains_key, insert}
use tei_manager.Config.{InstanceConfig}
use tei_manager.Instance.{TeiInstance}
use tei_manager.Registry.Ports.{find_free_port, find_free_port_in_range}
use tei_manager.Registry.{
  InstanceEvent, RegistryError, already_exists, auto_allocation_disabled, no_port_in_range,
  port_in_use, max_reached, no_prometheus_port, not_found, stop_failed, Registry, used_ports,
  search_start, find_conflict, add, is_port_auto_allocation_enabled, allocate_port, assign_port,
  check_conflict, check_max, allocate_prometheus_port, assign_prometheus_port,
}

abbrev pub search : (ℕ → Bool) → Registry → Option ℕ
search free r =
    find_free_port_in_range free (search_start r) r.instance_port_range.0 r.instance_port_range.1
      (used_ports r.instances)

abbrev pub HasRoom : Option ℕ → ℕ → Type 0
HasRoom none n = Unit
HasRoom (some max) n = n < max

-- The port that the new instance gets.
abbrev pub PortFor : (ℕ → Bool) → Registry → ℕ → ℕ → Type 0
PortFor free r asked given =
    ((asked ≢ 0) × (given ≡ asked))
    ⊎ ((asked ≡ 0) × (is_port_auto_allocation_enabled r ≡ true) × (search free r ≡ some given))

abbrev pub PrometheusFor : (ℕ → Bool) → Registry → Option ℕ → Option ℕ → Type 0
PrometheusFor free r none given =
    (given ≡ find_free_port free r.next_prometheus_port) × (given ≢ none)
PrometheusFor free r (some port) given = given ≡ some port

-- A successful `add`.
pub record Added (free : ℕ → Bool) (c : InstanceConfig) (r r' : Registry) (i : TeiInstance)
    : Type 0 where
  pub fresh_name : lookup c.name r.instances ≡ none
  pub room : HasRoom r.max_instances (length r.instances)
  pub no_conflict : find_conflict i.config.port r.instances ≡ none
  pub port_for : PortFor free r c.port i.config.port
  pub prometheus_for : PrometheusFor free r c.prometheus_port i.config.prometheus_port
  pub config :
      i.config ≡ record c { port = i.config.port; prometheus_port = i.config.prometheus_port }
  pub cell : i.cell ≡ r.next_cell
  pub registry : r' ≡ record r {
    instances = insert c.name i r.instances;
    events = r.events ++ InstanceEvent.added c.name ∷ [];
    next_prometheus_port = r'.next_prometheus_port;
    next_instance_port = r'.next_instance_port;
    next_cell = r.next_cell + 1;
  }

-- Why an `add` is refused.
abbrev pub Refusal : (ℕ → Bool) → InstanceConfig → Registry → RegistryError → Type 0
Refusal free c r (already_exists name) = (name ≡ c.name) × (lookup c.name r.instances ≢ none)
Refusal free c r auto_allocation_disabled =
    (c.port ≡ 0) × (r.instance_port_range.1 ≤ r.instance_port_range.0)
Refusal free c r no_port_in_range = (c.port ≡ 0) × (search free r ≡ none)
Refusal free c r (port_in_use port name) =
    PortFor free r c.port port × (find_conflict port r.instances ≡ some name)
Refusal free c r (max_reached max) = (r.max_instances ≡ some max) × (max ≤ length r.instances)
Refusal free c r no_prometheus_port =
    (c.prometheus_port ≡ none) × (find_free_port free r.next_prometheus_port ≡ none)
Refusal free c r (not_found name) = ⊥
Refusal free c r (stop_failed e) = ⊥

-- The outcome of `add`, by how it ends: a refusal keeps all of the registry but the place where
-- the next search for a port starts.
abbrev pub AddOutcome :
    (ℕ → Bool) → InstanceConfig → Registry → Result RegistryError TeiInstance × Registry → Type 0
AddOutcome free c r (ok i, r') = Added free c r r' i
AddOutcome free c r (err e, r') =
    Refusal free c r e × (r' ≡ record r { next_instance_port = r'.next_instance_port })

-- `add` either adds the instance, as `Added` says, or refuses for a reason that holds. A refusal
-- changes nothing but the place where the next search for a port starts.
pub add-AddOutcome :
    (free : ℕ → Bool) (c : InstanceConfig) (r : Registry) → AddOutcome free c r (add free c r)
unfolding add contains_key is_port_auto_allocation_enabled allocate_port assign_port check_conflict
    check_max allocate_prometheus_port assign_prometheus_port
add-AddOutcome free c r = ground arith
