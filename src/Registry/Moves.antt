-- ===== src/Registry/Moves.antt =====
-- What an operation may do to the registry of src/registry.rs, and to the instances by name, which is
-- all that a client of it sees: neither the order of the entries nor the search cursors show. The
-- entries of a HashMap may come in any order at any time, so a new order is among the moves.
use tei_manager.Base.{
  ℕ, ◌≡◌, ◌≢◌, ◌⊎◌, ◌∙◌, inl, inr, refl, sym, subst, ap, String, Bool, Option, none, some, List, [],
  ◌∷◌, map, Permᴰ, arith, Result, ok, err, str_eq_iff, IsDistinct,
}
use tei_manager.Base.Dict.{Dict, lookup, erase, insert, lookup-erase, lookup-insert}
use tei_manager.Base.Reorder.{All-perm, IsDistinct-perm, length-perm, map-perm, lookup-perm}
use tei_manager.Config.{InstanceConfig}
use tei_manager.Instance.{TeiInstance}
use tei_manager.Registry.{Registry, RegistryError, InstanceEvent, add, get, used_ports}
use tei_manager.Registry.Add.{AddOutcome, add-AddOutcome}
use tei_manager.Registry.Invariant.{IsValid, WithinMax, add-IsValid, erased-IsValid}

-- The registry with its entries in another order.
abbrev pub Reordered : Registry → Registry → Type 0
Reordered r r' =
    (order : Dict TeiInstance) × Permᴰ r.instances order × (r' ≡ record r { instances = order })

-- The registry as it was, or after an `add`, or without a name, or in another order.
abbrev pub Moved : Registry → Registry → Type 0
Moved r r' =
    (r' ≡ r)
    ⊎ (((free : ℕ → Bool) × (c : InstanceConfig) × (r' ≡ (add free c r).1))
        ⊎ (((name : String) × (r'
                ≡ record r { instances = erase name r.instances; events = r'.events }))
            ⊎ Reordered r r'))

ports-map : (d : Dict TeiInstance) → used_ports d ≡ map (λ e. e.1.config.port) d
ports-map [] = refl
ports-map (e ∷ d) = ap (λ ports. e.1.config.port ∷ ports) (ports-map d)

with_events-IsValid :
    (r : Registry) (events : List InstanceEvent)
    → IsValid r
    → IsValid (record r { events = events })
with_events-IsValid r events v = record {
  keyed = v.keyed;
  names_distinct = v.names_distinct;
  ports_distinct = v.ports_distinct;
  within_max = v.within_max;
  cells_old = v.cells_old;
  range_u16 = v.range_u16;
  cursor_low = v.cursor_low;
  cursor_high = v.cursor_high;
}

pub reordered-IsValid :
    (r : Registry) (order : Dict TeiInstance)
    → Permᴰ r.instances order
    → IsValid r
    → IsValid (record r { instances = order })
reordered-IsValid r order p v = record {
  keyed = All-perm _ p v.keyed;
  names_distinct = IsDistinct-perm (map-perm (λ e. e.0) p) v.names_distinct;
  ports_distinct = subst IsDistinct (sym (ports-map order)) (
      IsDistinct-perm (map-perm (λ e. e.1.config.port) p)
        (subst IsDistinct (ports-map r.instances) v.ports_distinct));
  within_max = subst (WithinMax r.max_instances) (sym (length-perm p)) v.within_max;
  cells_old = All-perm _ p v.cells_old;
  range_u16 = v.range_u16;
  cursor_low = v.cursor_low;
  cursor_high = v.cursor_high;
}

pub Moved-IsValid : (r r' : Registry) → Moved r r' → IsValid r → IsValid r'
Moved-IsValid r r' (inl same) v = subst IsValid (sym same) v
Moved-IsValid r r' (inr (inl (free, c, e))) v = subst IsValid (sym e) (add-IsValid free c r v)
Moved-IsValid r r' (inr (inr (inr (order, p, e)))) v =
    subst IsValid (sym e) (reordered-IsValid r order p v)
Moved-IsValid r r' (inr (inr (inl (name, e)))) v =
    let erased : Registry = record r { instances = erase name r.instances } in
    subst IsValid (sym e) (with_events-IsValid erased r'.events (erased-IsValid name r v))

-- The specification: the instances by name.
abbrev pub View : Type 0
View = String → Option TeiInstance

abbrev pub view : Registry → View
view r name = get name r

abbrev pub Kept : View → View → Type 0
Kept old new = (name : String) → new name ≡ old name

abbrev pub OthersKept : String → View → View → Type 0
OthersKept name old new = (other : String) → name ≢ other → new other ≡ old other

-- A new instance under the name of its configuration, which was free; its ports may be given to it.
pub record Created (c : InstanceConfig) (old new : View) : Type 0 where
  pub instance_new : TeiInstance
  pub was_free : old c.name ≡ none
  pub stands : new c.name ≡ some instance_new
  pub config : instance_new.config ≡ record c {
    port = instance_new.config.port;
    prometheus_port = instance_new.config.prometheus_port;
  }
  pub others : OthersKept c.name old new

-- The end of a name.
pub record Gone (name : String) (old new : View) : Type 0 where
  pub ended : new name ≡ none
  pub others : OthersKept name old new

-- What `add` does to the instances by name, by its answer.
abbrev pub AddView : InstanceConfig → View → Result RegistryError TeiInstance × Registry → Type 0
AddView c old (ok i, r') = Created c old (view r')
AddView c old (err e, r') = Kept old (view r')

pub add-AddView :
    (free : ℕ → Bool) (c : InstanceConfig) (r : Registry) → AddView c (view r) (add free c r)
unfolding get
add-AddView free c r = outcome (add free c r) (add-AddOutcome free c r)
  where
    outcome :
        (res : Result RegistryError TeiInstance × Registry)
        → AddOutcome free c r res
        → AddView c (view r) res
    outcome (ok i, r') a =
        let e : r'.instances ≡ insert c.name i r.instances = ap (λ s. s.instances) a.registry in
        record {
          instance_new = i;
          was_free = a.fresh_name;
          stands =
              ground
                (arith, e, lookup-insert c.name c.name i r.instances, str_eq_iff c.name c.name);
          config = a.config;
          others = λ other ne.
              ground
                (arith, e, lookup-insert c.name other i r.instances, str_eq_iff c.name other, ne);
        }
    outcome (err x, r') a =
        let e : r'.instances ≡ r.instances = ap (λ s. s.instances) a.1 in
        λ name. ap (λ d. lookup name d) e

pub erase-Gone :
    (name : String) (r r' : Registry)
    → r'.instances ≡ erase name r.instances
    → Gone name (view r) (view r')
unfolding get
erase-Gone name r r' e = record {
  ended = ground (arith, e, lookup-erase name name r.instances, str_eq_iff name name);
  others =
      λ other ne. ground (arith, e, lookup-erase name other r.instances, str_eq_iff name other, ne);
}

pub Reordered-Kept : (r r' : Registry) → Reordered r r' → IsValid r → Kept (view r) (view r')
unfolding get
Reordered-Kept r r' (order, p, e) v name =
    ap (λ q. lookup name q.instances) e ∙ sym (lookup-perm name p v.names_distinct)
