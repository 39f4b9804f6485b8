-- ===== src/Pool/Events.antt =====
-- The events of src/registry.rs and the connections of src/grpc/pool.rs.
use tei_manager.Base.{
  ℕ, ◌≡◌, String, Option, none, List, [], ◌∷◌, ◌++◌, map, arith, ok, err, str_eq_iff,
}
use tei_manager.Base.Dict.{lookup, lookup-erase}
use tei_manager.Instance.{ProcessManager, Lawful}
use tei_manager.Registry.{Registry, InstanceEvent, get}
use tei_manager.Registry.World.{World}
use tei_manager.Registry.World
use tei_manager.Registry.World.Removal.{remove-Removed}
use tei_manager.Pool.{
  BackendPool, Status, Instant, Received, create_connection, get_clients, remove, handle_event,
  handle_lifecycle_events,
}

module _ (connect : ℕ → Option String) (now : Instant) (name : String) where
  get_clients_unknown :
      (r : Registry) (pool : BackendPool)
      → get name r ≡ none
      → lookup name pool.connections ≡ none
      → get_clients connect r now name pool ≡ (err (Status.not_found name), pool)
  unfolding get_clients create_connection
  get_clients_unknown r pool h k = ground arith

  handle_removed :
      (pool : BackendPool)
      → lookup name
          (handle_lifecycle_events
            (Received.event (InstanceEvent.removed name) ∷ [])
            pool).connections
        ≡ none
  unfolding handle_lifecycle_events handle_event remove
  handle_removed pool =
      ground (arith, lookup-erase name name pool.connections, str_eq_iff name name)

  module _ {P : Type 0} (pm : ProcessManager P) (laws : Lawful pm) (w w' : World P) where
    -- When a lawful process manager stops the process of an instance that is removed, an
    -- event is sent that makes the pool close the connection: asked for the name then, the
    -- pool reports that it is not found.
    pub removal_disconnects :
        (pool : BackendPool)
        → World.remove pm name w ≡ (ok tt, w')
        → (sent : List InstanceEvent) × (w'.registry.events ≡ w.registry.events ++ sent)
          × (get_clients connect w'.registry now name
                (handle_lifecycle_events (map Received.event sent) pool)
              ≡ (
                err (Status.not_found name),
                handle_lifecycle_events (map Received.event sent) pool,
              ))
    unfolding get
    removal_disconnects pool h = (
      InstanceEvent.removed name ∷ [],
      ground (arith, remove-Removed pm laws name w),
      get_clients_unknown w'.registry _
          (ground (
            arith,
            remove-Removed pm laws name w,
            lookup-erase name name w.registry.instances,
            str_eq_iff name name,
          ))
          (handle_removed pool),
    )
