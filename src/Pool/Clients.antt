-- ===== src/Pool/Clients.antt =====
-- `get_clients` of src/grpc/pool.rs, branch by branch.
use tei_manager.Base.{
  ℕ, ◌≡◌, ◌≢◌, refl, String, Option, none, some, arith, Result, ok, err, str_eq, if◌then◌else◌,
}
use tei_manager.Base.Dict.{lookup, insert, lookup-insert}
use tei_manager.Registry.{Registry, get}
use tei_manager.Instance.{TeiInstance}
use tei_manager.Pool.{
  BackendPool, BackendClients, ConnectionEntry, Status, Instant, new_entry, touch, clients_of,
  create_connection, get_clients, keep_new,
}

-- The connection of a name is the given one, and no other changed.
abbrev pub Holds : String → ConnectionEntry → BackendPool → BackendPool → Type 0
Holds name e pool pool' =
    (j : String)
    → lookup j pool'.connections ≡ (if str_eq name j then some e else lookup j pool.connections)

module _ (connect : ℕ → Option String) (r : Registry) (now : Instant) (name : String) where
  abbrev pub ClientsFor :
      Option ConnectionEntry → BackendPool → Result Status BackendClients × BackendPool → Type 0
  ClientsFor (some e) pool (ok clients, pool') =
      (clients ≡ e.clients) × Holds name (touch now e) pool pool'
  ClientsFor (some e) pool (err status, pool') = ⊥
  ClientsFor none pool (ok clients, pool') =
      ((i : TeiInstance) × (get name r ≡ some i)
        × (connect i.config.port ≡ none)
        × (clients ≡ clients_of (record { port = i.config.port })))
      × Holds name (new_entry now clients) pool pool'
  ClientsFor none pool (err (Status.not_found n), pool') =
      (n ≡ name) × (get name r ≡ none) × (pool' ≡ pool)
  ClientsFor none pool (err (Status.unavailable failure), pool') =
      (get name r ≢ none) × (pool' ≡ pool)
  ClientsFor none pool (err _, pool') = ⊥

  create_connection-none :
      get name r ≡ none → create_connection connect r name ≡ err (Status.not_found name)
  unfolding create_connection
  create_connection-none k = ground (arith, k)

  create_connection-some :
      (i : TeiInstance)
      → get name r ≡ some i
      → create_connection connect r name ≡ (elim (connect i.config.port) [
        | none ↦ ok (clients_of (record { port = i.config.port }))
        | some failure ↦ err (Status.unavailable failure)
      ])
  unfolding create_connection
  create_connection-some i k = ground (arith, k)

  keep_new-ClientsFor :
      (pool : BackendPool)
      → ClientsFor none pool (keep_new now name (create_connection connect r name) pool)
  keep_new-ClientsFor pool = found (get name r) refl
    where
      answered :
          (i : TeiInstance) (c : Option String)
          → get name r ≡ some i
          → connect i.config.port ≡ c
          → ClientsFor none pool (keep_new now name (create_connection connect r name) pool)
      answered i none k c =
          rw (create_connection-some i k, c)
            (
              (i, k, c, refl),
              λ j.
                  lookup-insert name j
                    (new_entry now (clients_of (record { port = i.config.port }))) pool.connections,
            )
      answered i (some failure) k c =
          rw (create_connection-some i k, c) ((λ e. ground (arith, e, k)), refl)

      found :
          (t : Option TeiInstance)
          → get name r ≡ t
          → ClientsFor none pool (keep_new now name (create_connection connect r name) pool)
      found none k = rw (create_connection-none k) (refl, k, refl)
      found (some i) k = answered i (connect i.config.port) k refl

  pub get_clients-some :
      (pool : BackendPool) (e : ConnectionEntry)
      → lookup name pool.connections ≡ some e
      → get_clients connect r now name pool
        ≡ (ok e.clients, record pool { connections = insert name (touch now e) pool.connections })
  unfolding get_clients
  get_clients-some pool e h = ground (arith, h)

  pub get_clients-none :
      (pool : BackendPool)
      → lookup name pool.connections ≡ none
      → get_clients connect r now name pool
        ≡ keep_new now name (create_connection connect r name) pool
  unfolding get_clients
  get_clients-none pool h = ground (arith, h)

  -- A name with a connection gets its clients, whatever became of the instance, and the connection
  -- counts as used. Else an instance that answers gets clients at its port, which are kept as a new
  -- connection; an unknown name and an instance that does not answer are errors, and change nothing.
  pub get_clients-ClientsFor :
      (pool : BackendPool)
      → ClientsFor (lookup name pool.connections) pool (get_clients connect r now name pool)
  get_clients-ClientsFor pool = held (lookup name pool.connections) refl
    where
      held :
          (o : Option ConnectionEntry)
          → lookup name pool.connections ≡ o
          → ClientsFor (lookup name pool.connections) pool (get_clients connect r now name pool)
      held (some e) h =
          rw (h, get_clients-some pool e h)
            (refl, λ j. lookup-insert name j (touch now e) pool.connections)
      held none h = rw (h, get_clients-none pool h) (keep_new-ClientsFor pool)
