-- ===== src/Pool/Pruning.antt =====
-- What `prune_idle_connections` and `prune_orphaned_connections` of src/grpc/pool.rs keep.
use tei_manager.Base.{
  ℕ, ◌≡◌, ◌≢◌, refl, String, Bool, false, ◌||◌, Option, none, some, List, [], ◌∷◌, arith, str_eq,
  str_eq_iff, if◌then◌else◌, All, IsDistinct, map,
}
use tei_manager.Base.Dict.{Dict, lookup, erase, lookup-erase}
use tei_manager.Instance.{TeiInstance}
use tei_manager.Registry.{Registry, get}
use tei_manager.Pool.{
  BackendPool, ConnectionEntry, Instant, remove_keys, idle_keys, orphaned_keys, is_idle,
  prune_idle_connections, prune_orphaned_connections,
}

abbrev has_key : String → List String → Bool
has_key j [] = false
has_key j (k ∷ ks) = str_eq k j || has_key j ks

lookup-remove_keys :
    (j : String) (ks : List String) (d : Dict ConnectionEntry)
    → lookup j (remove_keys ks d).1 ≡ (if has_key j ks then none else lookup j d)
unfolding remove_keys
lookup-remove_keys j [] d = refl
lookup-remove_keys j (k ∷ ks) d =
    ground (arith, lookup-remove_keys j ks (erase k d), lookup-erase k j d)

-- The entry, unless it is idle.
abbrev pub unless_idle : ℕ → Instant → Option ConnectionEntry → Option ConnectionEntry
unless_idle max_idle now none = none
unless_idle max_idle now (some e) = if is_idle max_idle now e then none else some e

has_key-idle_none :
    (max_idle : ℕ) (now : Instant) (j : String) (d : Dict ConnectionEntry)
    → All (λ k. j ≢ k) (map (λ e. e.0) d)
    → has_key j (idle_keys max_idle now d) ≡ false
unfolding idle_keys
has_key-idle_none max_idle now j [] h = refl
has_key-idle_none max_idle now j ((k, e) ∷ d) h =
    ground (arith, str_eq_iff k j, has_key-idle_none max_idle now j d h.1)

has_key-idle :
    (max_idle : ℕ) (now : Instant) (j : String) (d : Dict ConnectionEntry)
    → IsDistinct (map (λ e. e.0) d)
    → (if has_key j (idle_keys max_idle now d) then none else lookup j d)
      ≡ unless_idle max_idle now (lookup j d)
unfolding idle_keys lookup
has_key-idle max_idle now j [] h = refl
has_key-idle max_idle now j ((k, e) ∷ d) h = ground (
  arith,
  str_eq_iff k j,
  has_key-idle_none max_idle now k d h.0,
  has_key-idle max_idle now j d h.1,
)

-- In a pool that has each name once, pruning closes exactly the connections that were unused for
-- longer than the limit, and leaves the others as they are.
pub lookup-prune_idle :
    (now : Instant) (pool : BackendPool) (j : String)
    → IsDistinct (map (λ e. e.0) pool.connections)
    → lookup j (prune_idle_connections now pool).1.connections
      ≡ unless_idle pool.max_idle_time now (lookup j pool.connections)
unfolding prune_idle_connections
lookup-prune_idle now pool j h = ground (
  arith,
  lookup-remove_keys j (idle_keys pool.max_idle_time now pool.connections) pool.connections,
  has_key-idle pool.max_idle_time now j pool.connections h,
)

-- A registered name is not an orphan.
orphaned_keys-registered :
    (r : Registry) (j : String) (d : Dict ConnectionEntry)
    → get j r ≢ none
    → has_key j (orphaned_keys r d) ≡ false
unfolding orphaned_keys
orphaned_keys-registered r j [] h = refl
orphaned_keys-registered r j ((k, e) ∷ d) h =
    ground (arith, str_eq_iff k j, orphaned_keys-registered r j d h)

orphaned_keys-unknown :
    (r : Registry) (j : String) (d : Dict ConnectionEntry)
    → get j r ≡ none
    → has_key j (orphaned_keys r d) ≡ false
    → lookup j d ≡ none
unfolding orphaned_keys lookup
orphaned_keys-unknown r j [] h u = refl
orphaned_keys-unknown r j ((k, e) ∷ d) h u =
    ground (arith, str_eq_iff k j, orphaned_keys-unknown r j d h)

-- The entry, if its instance is there.
abbrev pub if_registered : Option TeiInstance → Option ConnectionEntry → Option ConnectionEntry
if_registered none e = none
if_registered (some i) e = e

-- Pruning of orphans closes exactly the connections whose instance is not in the registry.
pub lookup-prune_orphaned :
    (r : Registry) (pool : BackendPool) (j : String)
    → lookup j (prune_orphaned_connections r pool).1.connections
      ≡ if_registered (get j r) (lookup j pool.connections)
unfolding prune_orphaned_connections
lookup-prune_orphaned r pool j = ground (
  arith,
  lookup-remove_keys j (orphaned_keys r pool.connections) pool.connections,
  orphaned_keys-registered r j pool.connections,
  orphaned_keys-unknown r j pool.connections,
)
