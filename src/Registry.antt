-- ===== src/Registry.antt =====
-- src/registry.rs: the instances by name, the ports given out, and the events sent.
-- The lock of the map is held through `add`, so `add` is one step. What `TcpListener::bind` answers
-- for each port during a call is the argument `free`.
pub mod Ports
pub mod Add
pub mod Invariant
pub mod Capacity
pub mod World
pub mod Prometheus
pub mod Tests
pub mod Explicit
pub mod Moves
use tei_manager.Base.{
  ℕ, ◌+◌, ◌%◌, ◌≡◌, String, Bool, true, false, not, Option, none, some, List, [], ◌∷◌, ◌++◌, map,
  ltb, leb, ◌==◌, if◌then◌else◌, Result, ok, err, Action, pure, bail, bail_if, gets, modify, lift,
  ◌>>=◌, ◌>>◌, length, ok_or,
}
use tei_manager.Base.Dict.{Dict, lookup, contains_key, insert, erase}
use tei_manager.Config.{InstanceConfig, Timestamp}
use tei_manager.Instance.{TeiInstance, AnyError}
use Ports.{find_free_port, find_free_port_in_range}

pub data InstanceEvent : Type 0 where
  added removed started stopped : String → InstanceEvent

-- The failures of the registry, one for each `bail!` and `?`.
pub data RegistryError : Type 0 where
  already_exists : String → RegistryError
  auto_allocation_disabled : RegistryError
  no_port_in_range : RegistryError
  port_in_use : ℕ → String → RegistryError
  max_reached : ℕ → RegistryError
  no_prometheus_port : RegistryError
  not_found : String → RegistryError
  stop_failed : AnyError → RegistryError

-- `events` is all that was sent on the broadcast channel, oldest first; `next_cell` is the address
-- of the next instance that is allocated.
pub record Registry : Type 0 where
  pub instances : Dict TeiInstance
  pub max_instances : Option ℕ
  pub tei_binary_path : String
  pub next_prometheus_port : ℕ
  pub next_instance_port : ℕ
  pub instance_port_range : ℕ × ℕ
  pub events : List InstanceEvent
  pub next_cell : ℕ

-- `Registry::new`.
unfoldable pub new_registry : Option ℕ → String → ℕ → ℕ → Registry
new_registry max binary start end = record {
  instances = [];
  max_instances = max;
  tei_binary_path = binary;
  next_prometheus_port = 9100;
  next_instance_port = start;
  instance_port_range = (start, end);
  events = [];
  next_cell = 0;
}

pub is_port_auto_allocation_enabled : Registry → Bool
is_port_auto_allocation_enabled r = ltb r.instance_port_range.0 r.instance_port_range.1

abbrev pub u16_mod : ℕ
u16_mod = 65536

abbrev pub used_ports : Dict TeiInstance → List ℕ
used_ports = map λ e. e.1.config.port

-- Past the end of the range the search starts over.
pub search_start : Registry → ℕ
search_start r =
    if leb r.instance_port_range.1 r.next_instance_port
    then r.instance_port_range.0
    else r.next_instance_port

-- The automatic choice of a port; `assigned_port + 1` is a `u16`.
pub allocate_port : (ℕ → Bool) → InstanceConfig → Action Registry RegistryError InstanceConfig
allocate_port free c = do
  enabled ← gets is_port_auto_allocation_enabled
  bail_if (not enabled) auto_allocation_disabled
  found ← gets λ r.
      find_free_port_in_range free (search_start r) r.instance_port_range.0 r.instance_port_range.1
        (used_ports r.instances)
  port ← lift (ok_or found no_port_in_range)
  modify (λ r. record r { next_instance_port = (port + 1) % u16_mod })
  pure (record c { port = port })

unfoldable pub assign_port :
    (ℕ → Bool) → InstanceConfig → Action Registry RegistryError InstanceConfig
assign_port free c = if c.port == 0 then allocate_port free c else pure c

-- The first instance met that has the port.
unfoldable pub find_conflict : ℕ → Dict TeiInstance → Option String
find_conflict port [] = none
find_conflict port (e ∷ d) =
    if e.1.config.port == port then some e.1.config.name else find_conflict port d

unfoldable pub check_conflict : ℕ → Action Registry RegistryError (Unit {0})
check_conflict port r = elim (find_conflict port r.instances) [
  | none ↦ (ok tt, r)
  | some name ↦ (err (port_in_use port name), r)
]

unfoldable pub check_max : Action Registry RegistryError (Unit {0})
check_max r = elim r.max_instances [
  | none ↦ (ok tt, r)
  | some max ↦ bail_if (leb max (length r.instances)) (max_reached max) r
]

pub allocate_prometheus_port :
    (ℕ → Bool) → InstanceConfig → Action Registry RegistryError InstanceConfig
allocate_prometheus_port free c = do
  found ← gets (λ r. find_free_port free r.next_prometheus_port)
  port ← lift (ok_or found no_prometheus_port)
  modify (λ r. record r { next_prometheus_port = (port + 1) % u16_mod })
  pure (record c { prometheus_port = some port })

unfoldable pub assign_prometheus_port :
    (ℕ → Bool) → InstanceConfig → Action Registry RegistryError InstanceConfig
assign_prometheus_port free c = elim c.prometheus_port [
  | none ↦ allocate_prometheus_port free c
  | some port ↦ pure c
]

-- `TeiInstance::new`, the insertion, and the event.
insert_instance : InstanceConfig → Action Registry RegistryError TeiInstance
insert_instance c r =
    let i : TeiInstance = record { config = c; cell = r.next_cell } in
    (
      ok i,
      record r {
        instances = insert c.name i r.instances;
        events = r.events ++ InstanceEvent.added c.name ∷ [];
        next_cell = r.next_cell + 1;
      },
    )

-- `Registry::add`.
unfoldable pub add : (ℕ → Bool) → InstanceConfig → Action Registry RegistryError TeiInstance
unfolding insert_instance
add free config = do
  known ← gets (λ r. contains_key config.name r.instances)
  bail_if known (already_exists config.name)
  placed ← assign_port free config
  check_conflict placed.port
  check_max
  complete ← assign_prometheus_port free placed
  insert_instance complete

-- `Registry::get`, `list` and `count`.
unfoldable pub get : String → Registry → Option TeiInstance
get name r = lookup name r.instances

unfoldable pub list : Registry → List TeiInstance
list r = map (λ e. e.1) r.instances

pub count : Registry → ℕ
count r = length r.instances

-- The part of `remove` under the lock.
unfoldable pub take_out : String → Action Registry RegistryError TeiInstance
take_out name = do
  found ← gets (λ r. lookup name r.instances)
  i ← lift (ok_or found (not_found name))
  modify (λ r. record r { instances = erase name r.instances })
  pure i
