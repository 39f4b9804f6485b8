-- ===== src/Registry/Capacity.antt =====
-- The automatic allocation of ports of src/registry.rs, in a range that src/config.rs validated.
use tei_manager.Base.{
  ℕ, ◌-◌, ◌≤◌, ◌<◌, ◌≡◌, ◌≢◌, refl, Bool, true, none, some, [], ◌∷◌, arith, Result, ok, err, length,
  All, length-map,
}
use tei_manager.Base.Dict.{Dict, lookup}
use tei_manager.Config.{InstanceConfig, ManagerConfig}
use tei_manager.Config.Validate.{Files, validate}
use tei_manager.Config.Validate.Accepts.{validate_iff}
use tei_manager.Instance.{TeiInstance}
use tei_manager.Registry.Ports.{u16_max}
use tei_manager.Registry.Ports.Search.{
  range_sound, range_none, is_used-false, find_free_port-ne-none,
}
use tei_manager.Registry.Ports.Pigeonhole.{unused_port}
use tei_manager.Registry.{
  Registry, RegistryError, used_ports, search_start, find_conflict, add,
  is_port_auto_allocation_enabled,
}
use tei_manager.Registry.Add.{AddOutcome, Refusal, add-AddOutcome, HasRoom, search}
use tei_manager.Registry.Invariant.{IsValid, search_start_bounds}

pub find_conflict_unused :
    (port : ℕ) (d : Dict TeiInstance)
    → All (λ p. p ≢ port) (used_ports d)
    → find_conflict port d ≡ none
unfolding find_conflict
find_conflict_unused port [] h = refl
find_conflict_unused port (e ∷ d) h = ground (arith, find_conflict_unused port d h.1)

module _ (free : ℕ → Bool) (all_free : (port : ℕ) → port ≤ u16_max → free port ≡ true) where
  module _ (r : Registry) (v : IsValid r) (auto : is_port_auto_allocation_enabled r ≡ true)
      (spare : length r.instances < r.instance_port_range.1 - r.instance_port_range.0) where
    search-ne-none : search free r ≢ none
    search-ne-none h =
        let (low, high) = search_start_bounds r v auto in
        let lo : ℕ = r.instance_port_range.0 in
        let hi : ℕ = r.instance_port_range.1 in
        let (port, above, below, unused) =
          unused_port (hi - lo) lo (used_ports r.instances)
            (omega (arith, length-map (λ e. e.1.config.port) r.instances)) in
        range_none free (used_ports r.instances) (search_start r) lo hi low high port h above
          (omega arith) (unused, all_free port (omega (arith, v.range_u16)))

    search_no_conflict :
        (port : ℕ) → search free r ≡ some port → find_conflict port r.instances ≡ none
    search_no_conflict port h =
        let (low, high) = search_start_bounds r v auto in
        find_conflict_unused port r.instances (
          is_used-false (used_ports r.instances) port
            (range_sound free (used_ports r.instances) (search_start r) r.instance_port_range.0
              r.instance_port_range.1 low high port h).2.0)

    not_refused :
        (c : InstanceConfig) (e : RegistryError)
        → c.port ≡ 0
        → lookup c.name r.instances ≡ none
        → HasRoom r.max_instances (length r.instances)
        → ¬ Refusal free c r e
    unfolding is_port_auto_allocation_enabled
    not_refused c (RegistryError.already_exists name) p new room x = x.1 new
    not_refused c RegistryError.auto_allocation_disabled p new room x = ground arith
    not_refused c RegistryError.no_port_in_range p new room x = search-ne-none x.1
    not_refused c (RegistryError.port_in_use port name) p new room x =
        ground (arith, search_no_conflict port)
    not_refused c (RegistryError.max_reached max) p new room x = ground arith
    not_refused c RegistryError.no_prometheus_port p new room x =
        find_free_port-ne-none free all_free r.next_prometheus_port x.1
    not_refused c (RegistryError.not_found name) p new room x = x
    not_refused c (RegistryError.stop_failed e) p new room x = x

    -- So with a new name, below the limit, an automatic `add` succeeds.
    auto_add :
        (c : InstanceConfig)
        → c.port ≡ 0
        → lookup c.name r.instances ≡ none
        → HasRoom r.max_instances (length r.instances)
        → (i : TeiInstance) × (r' : Registry) × (add free c r ≡ (ok i, r'))
    auto_add c p new room = go (add free c r) refl (add-AddOutcome free c r)
      where
        go :
            (res : Result RegistryError TeiInstance × Registry)
            → add free c r ≡ res
            → AddOutcome free c r res
            → (i : TeiInstance) × (r' : Registry) × (add free c r ≡ (ok i, r'))
        go (ok i, r') e a = (i, r', e)
        go (err x, r') e a = absurd (not_refused c x p new room a.0)

-- A registry with the range and the limit of a validated configuration never runs out of ports:
-- while it holds fewer instances than the limit, and every port can be bound, an `add` that leaves
-- the port open and has a new name succeeds.
pub validated_auto_add :
    (fs : Files) (m : ManagerConfig) (max : ℕ) (free : ℕ → Bool) (r : Registry) (c : InstanceConfig)
    → validate fs m ≡ ok tt
    → m.max_instances ≡ some max
    → r.max_instances ≡ some max
    → r.instance_port_range ≡ (m.instance_port_start, m.instance_port_end)
    → IsValid r
    → ((port : ℕ) → port ≤ u16_max → free port ≡ true)
    → length r.instances < max
    → c.port ≡ 0
    → lookup c.name r.instances ≡ none
    → (i : TeiInstance) × (r' : Registry) × (add free c r ≡ (ok i, r'))
unfolding is_port_auto_allocation_enabled
validated_auto_add fs m max free r c ok_m some_max max_r range v all_free room p new =
    let sound = (validate_iff fs m).0 ok_m in
    auto_add free all_free r v (ground (arith, sound.range_open))
      (ground (arith, sound.range_open, sound.capacity)) c p new (ground arith)
