-- ===== src/Pool/Tests.antt =====
-- Runs of the pool of src/grpc/pool.rs, and theorems about it at concrete inputs.
use tei_manager.Base.{ℕ, ◌≡◌, refl, String, Option, none, List, [], ◌∷◌, ◌++◌, map, err}
use tei_manager.Base.Dict.{lookup}
use tei_manager.Config.{default_instance_config}
use tei_manager.Instance.{ProcessManager, Lawful, TeiInstance, Runtime, AnyError, new_cell}
use tei_manager.Instance.Tests.{toy_manager, toy_laws, toy_runtime}
use tei_manager.Instance.System.{SystemState}
use tei_manager.Registry.{Registry, InstanceEvent, get, new_registry, stop_failed}
use tei_manager.Registry.World.{World}
use tei_manager.Registry.World
use tei_manager.Registry
use tei_manager.Instance
use tei_manager.Instance.System
use tei_manager.Registry.Tests.{empty}
use tei_manager.Pool.{
  BackendPool, ConnectionEntry, Status, Received, new_entry, clients_of, get_clients,
  handle_lifecycle_events,
}
use tei_manager.Pool.Events.{removal_disconnects}

abbrev pub answers : ℕ → Option String
answers port = none

abbrev entry : ConnectionEntry
entry = new_entry 5 (clients_of (record { port = 8080 }))

abbrev pub one_connection : BackendPool
one_connection = record {
  connections = ("a", entry) ∷ [];
  prune_interval = 300;
  max_idle_time = 600;
}

abbrev pub instance_a : TeiInstance
instance_a = record {
  config = record default_instance_config { name = "a"; port = 8080 };
  cell = 0;
}

abbrev pub toy_world : World (SystemState ℕ)
toy_world = record {
  registry = record empty { instances = ("a", instance_a) ∷ [] };
  runtime = toy_runtime;
}

abbrev after_removal : World (SystemState ℕ)
after_removal = (World.remove toy_manager "a" toy_world).1

removal_disconnects_example :
    (sent : List InstanceEvent) × (after_removal.registry.events
      ≡ toy_world.registry.events ++ sent)
    × (get_clients answers after_removal.registry 9 "a"
          (handle_lifecycle_events (map Received.event sent) one_connection)
        ≡ (
          err (Status.not_found "a"),
          handle_lifecycle_events (map Received.event sent) one_connection,
        ))
unfolding World.remove Registry.take_out Instance.stop System.stop lookup new_registry
removal_disconnects_example =
    removal_disconnects answers 9 "a" toy_manager toy_laws toy_world after_removal one_connection
      refl
