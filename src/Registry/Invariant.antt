-- ===== src/Registry/Invariant.antt =====
-- The well-formedness of the registry of src/registry.rs: names, ports, the limit, and the place
-- where the next search starts.
use tei_manager.Base.{
  ℕ, ◌+◌, ◌%◌, ◌≤◌, ◌<◌, ◌≡◌, ◌≢◌, ◌⊎◌, inl, inr, refl, String, Bool, true, Option, none, some, [],
  ◌∷◌, arith, map, Result, ok, err, length, All, All-append, All-mono, IsDistinct, subst, sym, ap,
  Option-cases,
}
use tei_manager.Base.Dict.{
  Dict, lookup, insert, erase, insert_new, lookup-none-All, All-erase, IsDistinct-erase,
  IsDistinct-insert_new, length-erase, length-insert_new,
}
use tei_manager.Config.{InstanceConfig}
use tei_manager.Instance.{TeiInstance}
use tei_manager.Registry.Ports.Search.{range_sound}
use tei_manager.Registry.{
  Registry, RegistryError, new_registry, u16_mod, used_ports, search_start, find_conflict, add,
  take_out, is_port_auto_allocation_enabled, allocate_port, assign_port, check_conflict, check_max,
  allocate_prometheus_port, assign_prometheus_port,
}
use tei_manager.Registry.Add.{Added, AddOutcome, add-AddOutcome, HasRoom, search}

abbrev pub WithinMax : Option ℕ → ℕ → Type 0
WithinMax none n = Unit
WithinMax (some max) n = n ≤ max

pub record IsValid (r : Registry) : Type 0 where
  pub keyed : All (λ e. e.0 ≡ e.1.config.name) r.instances
  pub names_distinct : IsDistinct (map (λ e. e.0) r.instances)
  pub ports_distinct : IsDistinct (used_ports r.instances)
  pub within_max : WithinMax r.max_instances (length r.instances)
  pub cells_old : All (λ e. e.1.cell < r.next_cell) r.instances
  pub range_u16 : r.instance_port_range.1 < u16_mod
  pub cursor_low : r.instance_port_range.0 ≤ r.next_instance_port
  pub cursor_high :
      (r.next_instance_port ≤ r.instance_port_range.1)
      ⊎ (r.next_instance_port ≡ r.instance_port_range.0)

pub new_registry-IsValid :
    (max : Option ℕ) (binary : String) (start end : ℕ)
    → end < u16_mod
    → IsValid (new_registry max binary start end)
unfolding new_registry
new_registry-IsValid none binary start end h = ground arith
new_registry-IsValid (some max) binary start end h = ground arith

find_conflict-none :
    (port : ℕ) (d : Dict TeiInstance)
    → find_conflict port d ≡ none
    → All (λ e. e.1.config.port ≢ port) d
unfolding find_conflict
find_conflict-none port [] h = tt
find_conflict-none port (e ∷ d) h = ground (arith, find_conflict-none port d)

pub search_start_bounds :
    (r : Registry)
    → IsValid r
    → is_port_auto_allocation_enabled r ≡ true
    → (r.instance_port_range.0 ≤ search_start r) × (search_start r ≤ r.instance_port_range.1)
unfolding search_start is_port_auto_allocation_enabled
search_start_bounds r v h = ground arith

-- Only the cursors move on a refusal.
pub add-search :
    (free : ℕ → Bool) (r : Registry) (port : ℕ)
    → IsValid r
    → is_port_auto_allocation_enabled r ≡ true
    → search free r ≡ some port
    → (r.instance_port_range.0 ≤ port) × (port < r.instance_port_range.1)
add-search free r port v auto h =
    let (low, high) = search_start_bounds r v auto in
    let found =
      range_sound free (used_ports r.instances) (search_start r) r.instance_port_range.0
        r.instance_port_range.1 low high port h in
    (found.0, found.1)

-- Where the next search starts after `add`.
abbrev CursorMoved : Registry → Registry → Option ℕ → Type 0
CursorMoved r r' none = r'.next_instance_port ≡ r.next_instance_port
CursorMoved r r' (some port) =
    (r'.next_instance_port ≡ r.next_instance_port)
    ⊎ ((is_port_auto_allocation_enabled r ≡ true) × (r'.next_instance_port ≡ (port + 1) % u16_mod))

add-CursorMoved :
    (free : ℕ → Bool) (c : InstanceConfig) (r : Registry)
    → CursorMoved r (add free c r).1 (search free r)
unfolding add allocate_port assign_port check_conflict check_max allocate_prometheus_port
    assign_prometheus_port
add-CursorMoved free c r = ground arith

abbrev CursorInRange : Registry → ℕ → Type 0
CursorInRange r next =
    (r.instance_port_range.0 ≤ next)
    × ((next ≤ r.instance_port_range.1) ⊎ (next ≡ r.instance_port_range.0))

cursor_after :
    (free : ℕ → Bool) (r r' : Registry) (found : Option ℕ)
    → IsValid r
    → search free r ≡ found
    → CursorMoved r r' found
    → CursorInRange r r'.next_instance_port
cursor_after free r r' none v e m = ground arith
cursor_after free r r' (some port) v e m = ground (arith, add-search free r port v)

room_for_one : (max : Option ℕ) (n : ℕ) → HasRoom max n → WithinMax max (n + 1)
room_for_one none n h = tt
room_for_one (some max) n h = omega arith

old_after :
    (c : InstanceConfig) (i : TeiInstance) (r : Registry)
    → All (λ e. e.1.cell < r.next_cell) r.instances
    → i.cell ≡ r.next_cell
    → lookup c.name r.instances ≡ none
    → All (λ e. e.1.cell < r.next_cell + 1) (insert c.name i r.instances)
old_after c i r old e new = rw (insert_new c.name i r.instances new) (
    All-append _ r.instances _ (All-mono _ _ r.instances (λ x h. omega arith) old)
      (omega arith, tt))

inserted-IsValid :
    (free : ℕ → Bool) (c : InstanceConfig) (r r' : Registry) (i : TeiInstance)
    → IsValid r
    → Added free c r r' i
    → CursorInRange r r'.next_instance_port
    → IsValid r'
inserted-IsValid free c r r' i v a cur = rw a.registry (record {
  keyed =
      subst (All _) (sym (insert_new c.name i r.instances a.fresh_name))
        (All-append _ r.instances _ v.keyed ((ap (λ x. x.name) (sym a.config)), tt));
  names_distinct =
      IsDistinct-insert_new (λ e. e.0) c.name i r.instances a.fresh_name v.names_distinct
        (lookup-none-All c.name r.instances a.fresh_name);
  ports_distinct =
      IsDistinct-insert_new (λ e. e.1.config.port) c.name i r.instances a.fresh_name
        v.ports_distinct (find_conflict-none i.config.port r.instances a.no_conflict);
  within_max =
      subst (WithinMax r.max_instances) (sym (length-insert_new c.name i r.instances a.fresh_name))
        (room_for_one r.max_instances (length r.instances) a.room);
  cells_old = old_after c i r v.cells_old a.cell a.fresh_name;
  range_u16 = v.range_u16;
  cursor_low = cur.0;
  cursor_high = cur.1;
})

-- Success and refusal of `add` alike leave a valid registry: names and ports stay distinct, the
-- limit is kept, each entry stands under its instance's name, and the search cursor stays in the
-- range.
pub add-IsValid :
    (free : ℕ → Bool) (c : InstanceConfig) (r : Registry) → IsValid r → IsValid (add free c r).1
add-IsValid free c r v =
    go (add free c r) (add-AddOutcome free c r)
      (cursor_after free r (add free c r).1 (search free r) v refl (add-CursorMoved free c r))
  where
    go :
        (res : Result RegistryError TeiInstance × Registry)
        → AddOutcome free c r res
        → CursorInRange r res.1.next_instance_port
        → IsValid res.1
    go (ok i, r') a cur = inserted-IsValid free c r r' i v a cur
    go (err e, r') a cur = rw a.1 (record {
      keyed = v.keyed;
      names_distinct = v.names_distinct;
      ports_distinct = v.ports_distinct;
      within_max = v.within_max;
      cells_old = v.cells_old;
      range_u16 = v.range_u16;
      cursor_low = cur.0;
      cursor_high = cur.1;
    })

within_fewer : (max : Option ℕ) (n m : ℕ) → WithinMax max n → m ≤ n → WithinMax max m
within_fewer none n m h l = tt
within_fewer (some max) n m h l = omega arith

pub erased-IsValid :
    (name : String) (r : Registry)
    → IsValid r
    → IsValid (record r { instances = erase name r.instances })
erased-IsValid name r v = record {
  keyed = All-erase _ name r.instances v.keyed;
  names_distinct = IsDistinct-erase _ name r.instances v.names_distinct;
  ports_distinct = IsDistinct-erase _ name r.instances v.ports_distinct;
  within_max =
      within_fewer r.max_instances (length r.instances) (length (erase name r.instances))
        v.within_max (length-erase name r.instances);
  cells_old = All-erase _ name r.instances v.cells_old;
  range_u16 = v.range_u16;
  cursor_low = v.cursor_low;
  cursor_high = v.cursor_high;
}

-- Taking an instance out of a valid registry, or failing to, leaves a valid registry.
pub take_out-IsValid : (name : String) (r : Registry) → IsValid r → IsValid (take_out name r).1
unfolding take_out
take_out-IsValid name r v = elim (Option-cases (lookup name r.instances)) [
  | inl e ↦ rw e v
  | inr (i, e) ↦ rw e (erased-IsValid name r v)
]
