-- ===== src/Pool.antt =====
-- src/grpc/pool.rs: the connections to the instances. A method runs as one step, at a time that is an
-- argument; instants and durations count the same unit. Whether a port answers is an argument.
pub mod Clients
pub mod Events
pub mod Pruning
pub mod Tests
use tei_manager.Base.{
  ℕ, ◌+◌, ◌-◌, String, Bool, true, false, not, Option, none, some, List, [], ◌∷◌, map, ltb, leb,
  if◌then◌else◌, Result, ok, err, Action, pure, bail, gets, lift, modify, ok_or, ◌>>=◌, ◌>>◌,
  length, unwrap_or, str_eq,
}
use tei_manager.Base.Dict.{Dict, lookup, contains_key, insert, erase}
use tei_manager.Registry.{Registry, InstanceEvent, get}

abbrev pub Instant : Type 0
Instant = ℕ

-- A channel to a port of this host.
pub record Channel : Type 0 where
  pub port : ℕ

pub record BackendClients : Type 0 where
  pub embed : Channel
  pub predict : Channel
  pub rerank : Channel
  pub tokenize : Channel
  pub info : Channel

pub record ConnectionEntry : Type 0 where
  pub clients : BackendClients
  pub created_at : Instant
  pub last_used : Instant

-- `ConnectionEntry::new` and `touch`.
abbrev pub new_entry : Instant → BackendClients → ConnectionEntry
new_entry now clients = record { clients = clients; created_at = now; last_used = now }

abbrev pub touch : Instant → ConnectionEntry → ConnectionEntry
touch now e = record e { last_used = now }

pub record BackendPool : Type 0 where
  pub connections : Dict ConnectionEntry
  pub prune_interval : ℕ
  pub max_idle_time : ℕ

pub with_pruning_config : ℕ → ℕ → BackendPool
with_pruning_config prune_interval max_idle_time = record {
  connections = [];
  prune_interval = prune_interval;
  max_idle_time = max_idle_time;
}

-- `BackendPool::new`, in seconds.
pub new_pool : BackendPool
new_pool = with_pruning_config 300 600

-- The `tonic::Status` values of src/grpc: by their code, with the text, or with what a format puts
-- into it.
pub data Status : Type 0 where
  not_found : String → Status
  unavailable : String → Status
  invalid_argument : String → Status
  invalid_format : String → String → Status
  unimplemented : String → Status
  internal : String → String → Status
  deadline_exceeded : String → Status

abbrev pub clients_of : Channel → BackendClients
clients_of channel = record {
  embed = channel;
  predict = channel;
  rerank = channel;
  tokenize = channel;
  info = channel;
}

-- `create_connection`: `connect` answers a port with the failure to connect, or nothing.
unfoldable pub create_connection :
    (ℕ → Option String) → Registry → String → Result Status BackendClients
create_connection connect r name = elim (get name r) [
  | none ↦ err (Status.not_found name)
  | some i ↦ elim (connect i.config.port) [
    | none ↦ ok (clients_of (record { port = i.config.port }))
    | some failure ↦ err (Status.unavailable failure)
  ]
]

-- The vacant entry is filled, if the connection could be made.
abbrev pub keep_new :
    Instant → String → Result Status BackendClients → Action BackendPool Status BackendClients
keep_new now name (err status) pool = (err status, pool)
keep_new now name (ok clients) pool =
    (ok clients, record pool { connections = insert name (new_entry now clients) pool.connections })

unfoldable pub get_clients :
    (ℕ → Option String) → Registry → Instant → String → Action BackendPool Status BackendClients
get_clients connect r now name pool = elim (lookup name pool.connections) [
  | some e ↦
      (ok e.clients, record pool { connections = insert name (touch now e) pool.connections })
  | none ↦ keep_new now name (create_connection connect r name) pool
]

-- `BackendPool::remove`.
unfoldable pub remove : String → BackendPool → Bool × BackendPool
remove name pool =
    (contains_key name pool.connections, record pool { connections = erase name pool.connections })

-- One event of `handle_lifecycle_events`.
unfoldable pub handle_event : InstanceEvent → BackendPool → BackendPool
handle_event (InstanceEvent.removed name) pool = (remove name pool).1
handle_event (InstanceEvent.stopped name) pool = (remove name pool).1
handle_event (InstanceEvent.added name) pool = pool
handle_event (InstanceEvent.started name) pool = pool

-- What the receiver of the channel answers, in turn.
pub data Received : Type 0 where
  event : InstanceEvent → Received
  lagged : ℕ → Received
  closed : Received

-- `handle_lifecycle_events`, on what is received.
unfoldable pub handle_lifecycle_events : List Received → BackendPool → BackendPool
handle_lifecycle_events [] pool = pool
handle_lifecycle_events (Received.event e ∷ rest) pool =
    handle_lifecycle_events rest (handle_event e pool)
handle_lifecycle_events (Received.lagged skipped ∷ rest) pool = handle_lifecycle_events rest pool
handle_lifecycle_events (Received.closed ∷ rest) pool = pool

-- The removal of the listed keys, with the number of those that were there.
unfoldable pub remove_keys : List String → Dict ConnectionEntry → ℕ × Dict ConnectionEntry
remove_keys [] d = (0, d)
remove_keys (k ∷ ks) d =
    let (count, rest) = remove_keys ks (erase k d) in
    ((if contains_key k d then count + 1 else count), rest)

abbrev pub is_idle : ℕ → Instant → ConnectionEntry → Bool
is_idle max_idle now e = ltb max_idle (now - e.last_used)

pub idle_keys : ℕ → Instant → Dict ConnectionEntry → List String
idle_keys max_idle now [] = []
idle_keys max_idle now ((k, e) ∷ d) =
    let rest = idle_keys max_idle now d in if is_idle max_idle now e then k ∷ rest else rest

unfoldable pub prune_idle_connections : Instant → BackendPool → ℕ × BackendPool
prune_idle_connections now pool =
    let (pruned, d) =
      remove_keys (idle_keys pool.max_idle_time now pool.connections) pool.connections in
    (pruned, record pool { connections = d })

pub orphaned_keys : Registry → Dict ConnectionEntry → List String
orphaned_keys r [] = []
orphaned_keys r ((k, e) ∷ d) =
    let rest = orphaned_keys r d in elim (get k r) [ none ↦ k ∷ rest | some _ ↦ rest ]

unfoldable pub prune_orphaned_connections : Registry → BackendPool → ℕ × BackendPool
prune_orphaned_connections r pool =
    let (pruned, d) = remove_keys (orphaned_keys r pool.connections) pool.connections in
    (pruned, record pool { connections = d })

abbrev max : ℕ → ℕ → ℕ
max a b = if leb a b then b else a

pub record PoolStats : Type 0 where
  pub active_connections : ℕ
  pub oldest_connection_age_secs : Option ℕ
  pub max_idle_secs : ℕ
  pub prune_interval_secs : ℕ
  pub max_idle_threshold_secs : ℕ

-- The fold of `stats`.
pub fold_ages : Instant → Dict ConnectionEntry → Option ℕ × ℕ → Option ℕ × ℕ
fold_ages now [] acc = acc
fold_ages now ((k, e) ∷ d) (oldest, max_idle) =
    let age = now - e.created_at in
    fold_ages now d
      (some (elim oldest [ none ↦ age | some o ↦ max o age ]), max max_idle (now - e.last_used))

pub stats : Instant → BackendPool → PoolStats
stats now pool =
    let (oldest, idle) = fold_ages now pool.connections (none, 0) in
    record {
      active_connections = length pool.connections;
      oldest_connection_age_secs = oldest;
      max_idle_secs = idle;
      prune_interval_secs = pool.prune_interval;
      max_idle_threshold_secs = pool.max_idle_time;
    }

pub clear : BackendPool → BackendPool
clear pool = record pool { connections = [] }
