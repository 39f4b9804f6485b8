-- ===== src/Api/Handlers.antt =====
-- The handlers of src/api/handlers.rs on success and on failure.
use tei_manager.Base.{ℕ, ◌≡◌, ◌≢◌, refl, String, Bool, Option, none, some, arith, err}
use tei_manager.Config.{Timestamp}
use tei_manager.Instance.{ProcessManager, Lawful, AnyError}
use tei_manager.Errors.{Message, TeiError, from_any}
use tei_manager.Registry.{already_exists, get}
use tei_manager.Registry.Explicit.{add_duplicate, get-add}
use tei_manager.Registry.World.{add_instance}
use tei_manager.Registry.World.Removal.{remove-Removed}
use tei_manager.Api.{
  CreateInstanceRequest, AppState, GpuInfo, config_of, create_instance, get_instance,
  delete_instance, start_instance, stop_instance, restart_instance, check_gpu,
}

pub check_gpu-state :
    {P : Type 0} (g : GpuInfo) (id : Option ℕ) (s : AppState P) → (check_gpu g id s).1 ≡ s
unfolding check_gpu
check_gpu-state g none s = refl
check_gpu-state g (some id) s = ground arith

module _ {P : Type 0} (pm : ProcessManager P) (laws : Lawful pm) (now : Timestamp) where
  failed_start_registers :
      (free : ℕ → Bool) (gpus : GpuInfo) (req : CreateInstanceRequest) (s s' : AppState P)
      (e : AnyError)
      → create_instance pm now free gpus req s ≡ (err (from_any e), s')
      → (get req.name s'.world.registry ≢ none) × (s'.tasks ≡ s.tasks)
  unfolding create_instance check_gpu add_instance config_of from_any
  failed_start_registers free gpus req s s' e h =
      ground (
        arith,
        get-add free (config_of now req) s.world.registry,
        check_gpu-state gpus req.gpu_id s,
      )

  create_taken :
      (free : ℕ → Bool) (gpus : GpuInfo) (req : CreateInstanceRequest) (s s' : AppState P)
      (e : AnyError)
      → create_instance pm now free gpus req s ≡ (err (from_any e), s')
      → get req.name s'.world.registry ≢ none
      → create_instance pm now free gpus req s'
        ≡ (err (TeiError.validation_error (Message.of_registry (already_exists req.name))), s')
  unfolding create_instance check_gpu add_instance config_of from_any
  create_taken free gpus req s s' e h taken =
      ground (arith, h, add_duplicate free (config_of now req) s'.world.registry taken)

  -- With a lawful process manager, when `create_instance` fails because the process cannot be
  -- started, the instance stays registered: the name is taken, no task is spawned, not even
  -- the one that saves the state, and the same request again is refused as a duplicate.
  pub create_failed_start :
      (free : ℕ → Bool) (gpus : GpuInfo) (req : CreateInstanceRequest) (s s' : AppState P)
      (e : AnyError)
      → create_instance pm now free gpus req s ≡ (err (from_any e), s')
      → (get req.name s'.world.registry ≢ none)
        × (s'.tasks ≡ s.tasks)
        × (create_instance pm now free gpus req s'
            ≡ (err (TeiError.validation_error (Message.of_registry (already_exists req.name))), s'))
  create_failed_start free gpus req s s' e h =
      let (taken, tasks) = failed_start_registers free gpus req s s' e h in
      (taken, tasks, create_taken free gpus req s s' e h taken)

  -- With a lawful process manager the handlers for reading, starting, stopping, restarting and
  -- deleting an instance all answer a name that is not registered with "not found", and change
  -- nothing.
  pub unknown_name :
      (name : String) (s : AppState P)
      → get name s.world.registry ≡ none
      → (get_instance pm now name s ≡ (err (TeiError.instance_not_found name), s))
        × (start_instance pm now name s ≡ (err (TeiError.instance_not_found name), s))
        × (stop_instance pm now name s ≡ (err (TeiError.instance_not_found name), s))
        × (restart_instance pm now name s ≡ (err (TeiError.instance_not_found name), s))
        × (delete_instance pm now name s ≡ (err (TeiError.instance_not_found name), s))
  unfolding get_instance start_instance stop_instance restart_instance delete_instance
  unknown_name name s h = ground (arith, h, remove-Removed pm laws name s.world)
