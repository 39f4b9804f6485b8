-- ===== src/Registry/Explicit.antt =====
-- `Registry::add` of src/registry.rs on configurations whose ports are all given, which are what
-- a restore adds.
use tei_manager.Base.{
  ℕ, suc, ◌+◌, ◌<◌, ◌≡◌, ◌≢◌, String, Bool, Option, none, some, List, [], ◌∷◌, ◌++◌, map, arith,
  Result, ok, err, length, All, IsDistinct, IsDistinct-middle, All-map_of, subst, sym, ◌∙◌, ap,
  All-append, str_eq, str_eq_iff, if◌then◌else◌,
}
use mathlib.Core.List.{append_assoc, map-append, append-nil}
use tei_manager.Base.Dict.{
  Dict, lookup, contains_key, insert, insert_new, lookup-none_of_All, length-insert_new,
  lookup-insert,
}
use tei_manager.Config.{InstanceConfig}
use tei_manager.Instance.{TeiInstance}
use tei_manager.Registry.{
  InstanceEvent, Registry, RegistryError, already_exists, used_ports, find_conflict, add,
  assign_port, check_conflict, check_max, assign_prometheus_port, get,
}
use tei_manager.Registry.Add.{Added, AddOutcome, add-AddOutcome, HasRoom, PrometheusFor}
use tei_manager.Registry.Invariant.{IsValid, WithinMax, add-search}
use tei_manager.Registry.Capacity.{find_conflict_unused}

-- A configuration that needs no allocation.
abbrev pub IsExplicit : InstanceConfig → Type 0
IsExplicit c = (c.port ≢ 0) × (c.prometheus_port ≢ none)

abbrev pub configs : Registry → List InstanceConfig
configs r = map (λ e. e.1.config) r.instances

-- Every instance of the registry has its ports.
abbrev pub IsPlaced : Registry → Type 0
IsPlaced r = All (λ e. IsExplicit e.1.config) r.instances

Added-IsExplicit :
    (free : ℕ → Bool) (c : InstanceConfig) (r r' : Registry) (i : TeiInstance)
    → IsValid r
    → 0 < r.instance_port_range.0
    → Added free c r r' i
    → IsExplicit i.config
Added-IsExplicit free c r r' i v low a = (
  ground (arith, a.port_for, add-search free r i.config.port v),
  prometheus c.prometheus_port a.prometheus_for,
)
  where
    prometheus :
        (asked : Option ℕ)
        → PrometheusFor free r asked i.config.prometheus_port
        → i.config.prometheus_port ≢ none
    prometheus none h = h.1
    prometheus (some p) h = ground arith

-- In a valid registry whose range starts above 0, `add` keeps every instance placed: each has a
-- port that is not 0 and a Prometheus port, which a later restore will use.
pub add-IsPlaced :
    (free : ℕ → Bool) (c : InstanceConfig) (r : Registry)
    → IsValid r
    → 0 < r.instance_port_range.0
    → IsPlaced r
    → IsPlaced (add free c r).1
add-IsPlaced free c r v low placed = go (add free c r) (add-AddOutcome free c r)
  where
    go :
        (res : Result RegistryError TeiInstance × Registry)
        → AddOutcome free c r res
        → IsPlaced res.1
    go (ok i, r') a =
        rw (a.registry, insert_new c.name i r.instances a.fresh_name)
          (All-append _ r.instances _ placed (Added-IsExplicit free c r r' i v low a, tt))
    go (err e, r') a = rw a.1 placed

abbrev added_registry : InstanceConfig → Registry → Registry
added_registry c r = record r {
  instances = insert c.name (record { config = c; cell = r.next_cell }) r.instances;
  events = r.events ++ InstanceEvent.added c.name ∷ [];
  next_cell = r.next_cell + 1;
}

-- With its ports given, a new name, no conflict and room, the configuration goes in as it is.
add_explicit :
    (free : ℕ → Bool) (c : InstanceConfig) (r : Registry)
    → IsExplicit c
    → lookup c.name r.instances ≡ none
    → find_conflict c.port r.instances ≡ none
    → HasRoom r.max_instances (length r.instances)
    → (add free c r).1 ≡ added_registry c r
unfolding add contains_key assign_port check_conflict check_max assign_prometheus_port
add_explicit free c r x new apart room = ground arith

-- `add` of one after the other, whatever each answers.
unfoldable pub add_all : (ℕ → Bool) → List InstanceConfig → Registry → Registry
add_all free [] r = r
add_all free (c ∷ cs) r = add_all free cs (add free c r).1

insert_images :
    {B : Type 0} (f : String × TeiInstance → B) (k : String) (v : TeiInstance)
    (d : Dict TeiInstance) (ys : List B)
    → lookup k d ≡ none
    → map f (insert k v d) ++ ys ≡ map f d ++ f (k, v) ∷ ys
insert_images f k v d ys new = rw (insert_new k v d new, map-append, append_assoc)

length-insert_add :
    (k : String) (v : TeiInstance) (d : Dict TeiInstance) (n : ℕ)
    → lookup k d ≡ none
    → length d + suc n ≡ length (insert k v d) + n
length-insert_add k v d n new = omega (arith, length-insert_new k v d new)

room_of : (max : Option ℕ) (n k : ℕ) → WithinMax max (n + suc k) → HasRoom max n
room_of none n k h = tt
room_of (some max) n k h = omega arith

-- Configurations with distinct names and ports, all given and no more than the limit allows, are
-- all added, in order and unchanged.
pub add_all-configs :
    (free : ℕ → Bool) (cs : List InstanceConfig) (r : Registry)
    → All IsExplicit cs
    → IsDistinct (map (λ e. e.0) r.instances ++ map (λ c. c.name) cs)
    → IsDistinct (used_ports r.instances ++ map (λ c. c.port) cs)
    → WithinMax r.max_instances (length r.instances + length cs)
    → configs (add_all free cs r) ≡ configs r ++ cs
unfolding add_all
add_all-configs free [] r x names ports room = sym (append-nil (configs r))
add_all-configs free (c ∷ cs) r x names ports room =
    let d : Dict TeiInstance = r.instances in
    let i : TeiInstance = record { config = c; cell = r.next_cell } in
    let new =
      lookup-none_of_All c.name d
        (All-map_of (λ e. e.0) _ d (IsDistinct-middle _ (map (λ b. b.name) cs) c.name names)) in
    let apart =
      find_conflict_unused c.port d (IsDistinct-middle _ (map (λ b. b.port) cs) c.port ports) in
    let added =
      add_explicit free c r x.0 new apart (room_of r.max_instances (length d) (length cs) room) in
    let rest =
      add_all-configs free cs (added_registry c r) x.1
        (subst IsDistinct (sym (insert_images (λ e. e.0) c.name i d (map (λ b. b.name) cs) new))
          names)
        (subst IsDistinct
          (sym (insert_images (λ e. e.1.config.port) c.name i d (map (λ b. b.port) cs) new)) ports)
        (subst (WithinMax r.max_instances) (length-insert_add c.name i d (length cs) new) room) in
    ap (λ s. configs (add_all free cs s)) added
    ∙ (rest ∙ insert_images (λ e. e.1.config) c.name i d cs new)

-- After a successful `add` the name finds the new instance, and every other name what it found.
pub Added-lookup :
    (free : ℕ → Bool) (c : InstanceConfig) (r r' : Registry) (i : TeiInstance) (j : String)
    → Added free c r r' i
    → get j r' ≡ (if str_eq c.name j then some i else get j r)
unfolding get
Added-lookup free c r r' i j a = rw a.registry (lookup-insert c.name j i r.instances)

-- A name that is taken is refused before anything changes.
pub add_duplicate :
    (free : ℕ → Bool) (c : InstanceConfig) (r : Registry)
    → get c.name r ≢ none
    → add free c r ≡ (err (already_exists c.name), r)
unfolding add contains_key get
add_duplicate free c r h = ground (arith, h)

-- An instance that was added is found under its name.
abbrev pub IsFound : String → Result RegistryError TeiInstance × Registry → Type 0
IsFound name (ok i, r') = get name r' ≡ some i
IsFound name (err e, r') = Unit

pub get-add : (free : ℕ → Bool) (c : InstanceConfig) (r : Registry) → IsFound c.name (add free c r)
get-add free c r = go (add free c r) (add-AddOutcome free c r)
  where
    go :
        (res : Result RegistryError TeiInstance × Registry)
        → AddOutcome free c r res
        → IsFound c.name res
    go (ok k, r') a = ground (arith, Added-lookup free c r r' k c.name a, str_eq_iff c.name c.name)
    go (err e, r') a = tt
