-- ===== src/Registry/Prometheus.antt =====
-- The allocation of Prometheus ports in `Registry::add` of src/registry.rs.
use tei_manager.Base.{ℕ, ◌≤◌, ◌≡◌, ◌≢◌, Bool, true, none, some, arith, ok}
use tei_manager.Config.{InstanceConfig}
use tei_manager.Instance.{TeiInstance}
use tei_manager.Registry.Ports.{u16_max}
use tei_manager.Registry.Ports.Search.{find_free_port_first}
use tei_manager.Registry.{
  Registry, add, allocate_port, assign_port, check_conflict, check_max, allocate_prometheus_port,
  assign_prometheus_port,
}

-- An instance that asks for the port which the next search for a Prometheus port would try, and
-- leaves its Prometheus port open, gets the same port twice, if that port can be bound: its process
-- does not listen yet, so the search takes the port for free.
pub add_prometheus_collides :
    (free : ℕ → Bool) (c : InstanceConfig) (r r' : Registry) (i : TeiInstance)
    → c.port ≢ 0
    → c.port ≡ r.next_prometheus_port
    → c.port ≤ u16_max
    → c.prometheus_port ≡ none
    → free c.port ≡ true
    → add free c r ≡ (ok i, r')
    → (i.config.port ≡ c.port) × (i.config.prometheus_port ≡ some c.port)
unfolding add assign_port check_conflict check_max allocate_prometheus_port assign_prometheus_port
add_prometheus_collides free c r r' i given same u16 unset can_bind e =
    ground (arith, find_free_port_first free r.next_prometheus_port)

-- When the last port number is given out, the next search starts at port 0 (a `u16` that wraps; a
-- debug build panics).
pub add_prometheus_wraps :
    (free : ℕ → Bool) (c : InstanceConfig) (r r' : Registry) (i : TeiInstance)
    → r.next_prometheus_port ≡ u16_max
    → c.prometheus_port ≡ none
    → free u16_max ≡ true
    → add free c r ≡ (ok i, r')
    → (i.config.prometheus_port ≡ some u16_max) × (r'.next_prometheus_port ≡ 0)
unfolding add allocate_port assign_port check_conflict check_max allocate_prometheus_port
    assign_prometheus_port
add_prometheus_wraps free c r r' i last unset can_bind e =
    ground (arith, find_free_port_first free r.next_prometheus_port)
