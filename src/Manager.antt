-- ===== src/Manager.antt =====
-- How the parts of the manager interleave: the handlers of src/api/handlers.rs, the monitor of
-- src/health.rs and the pool of src/grpc/pool.rs, on the registry that they share. A step is what one
-- of them does before another may act.
pub mod Runs
pub mod Orphans
mod Tests
use tei_manager.Base.{
  ℕ, ◌+◌, ◌≡◌, String, Bool, Option, none, some, List, [], ◌∷◌, Result, drop, Permᴰ,
}
use tei_manager.Base.Dict.{Dict}
use tei_manager.Config.{Timestamp}
use tei_manager.Instance.{ProcessManager, TeiInstance}
use tei_manager.Registry.{Registry, InstanceEvent, list}
use tei_manager.Registry.World.{World}
use tei_manager.Health.{HealthMonitorConfig, HealthEvent, Monitored, Probe}
use tei_manager.Health.Restarts.{check_once}
use tei_manager.Pool.{BackendPool, get_clients, handle_event, prune_idle_connections}
use tei_manager.Api.{
  AppState, CreateInstanceRequest, GpuInfo, Handler, create_instance, delete_instance,
  start_instance, stop_instance, restart_instance,
}

-- The handlers' state, the pool with the number of events that it has read, and the monitor: what it
-- still has to check in this round, and what it has told.
pub record Manager (P : Type 0) : Type 0 where
  pub app : AppState P
  pub pool : BackendPool
  pub seen : ℕ
  pub watched : List TeiInstance
  pub told : List HealthEvent

module _ {P : Type 0} where
  abbrev pub registry_of : Manager P → Registry
  registry_of m = m.app.world.registry

  abbrev pub unread : Manager P → List InstanceEvent
  unread m = drop m.seen (registry_of m).events

  abbrev pub with_registry : Registry → Manager P → Manager P
  with_registry r m = record m {
    app = record m.app { world = record m.app.world { registry = r } };
  }

  abbrev pub on_app : {A : Type 0} → Handler P A → Manager P → Manager P
  on_app handler m = record m { app = (handler m.app).1 }

module _ {P : Type 0} (pm : ProcessManager P) (probe : Probe) (config : HealthMonitorConfig) where
  -- The check of one instance, as the monitor read it at the start of its round.
  abbrev pub check_watched : Timestamp → TeiInstance → List TeiInstance → Manager P → Manager P
  check_watched now i rest m =
      let w = m.app.world in
      let before : Monitored P = record { runtime = w.runtime; events = m.told } in
      let after = check_once pm probe config w.registry.tei_binary_path i now before in
      record m {
        app = record m.app { world = record w { runtime = after.runtime } };
        watched = rest;
        told = after.events;
      }

  pub data Step : Manager P → Manager P → Type 0 where
    create :
        (now : Timestamp) (free : ℕ → Bool) (gpus : GpuInfo) (req : CreateInstanceRequest)
        (m : Manager P)
        → Step m (on_app (create_instance pm now free gpus req) m)
    delete :
        (now : Timestamp) (name : String) (m : Manager P)
        → Step m (on_app (delete_instance pm now name) m)
    start :
        (now : Timestamp) (name : String) (m : Manager P)
        → Step m (on_app (start_instance pm now name) m)
    stop :
        (now : Timestamp) (name : String) (m : Manager P)
        → Step m (on_app (stop_instance pm now name) m)
    restart :
        (now : Timestamp) (name : String) (m : Manager P)
        → Step m (on_app (restart_instance pm now name) m)
    begin_round : (m : Manager P) → Step m (record m { watched = list (registry_of m) })
    check :
        (now : Timestamp) (i : TeiInstance) (rest : List TeiInstance) (m : Manager P)
        → m.watched ≡ i ∷ rest
        → Step m (check_watched now i rest m)
    take_event :
        (e : InstanceEvent) (later : List InstanceEvent) (m : Manager P)
        → unread m ≡ e ∷ later
        → Step m (record m { pool = handle_event e m.pool; seen = m.seen + 1 })
    ask_clients :
        (connect : ℕ → Option String) (now : Timestamp) (name : String) (m : Manager P)
        → Step m (record m { pool = (get_clients connect (registry_of m) now name m.pool).1 })
    -- A HashMap may give its entries in any order, and in another one each time.
    reorder :
        (order : Dict TeiInstance) (m : Manager P)
        → Permᴰ (registry_of m).instances order
        → Step m (with_registry (record (registry_of m) { instances = order }) m)
    prune :
        (now : Timestamp) (m : Manager P)
        → Step m (record m { pool = (prune_idle_connections now m.pool).1 })

  -- Any number of steps, in any order.
  pub data Run : Manager P → Manager P → Type 0 where
    here : (m : Manager P) → Run m m
    after : (m m' m'' : Manager P) → Run m m' → Step m' m'' → Run m m''
