-- ===== src/Api/Effects.antt =====
-- What the handlers of src/api/handlers.rs do to the registry, however they end.
use tei_manager.Base.{
  ℕ, ◌≡◌, ◌≢◌, ◌⊎◌, inl, inr, refl, sym, ap, subst, ◌∙◌, String, Bool, true, false, none, some,
  arith, Result, ok, err, Option-cases,
}
use tei_manager.Base.Dict.{lookup, erase}
use tei_manager.Config.{Timestamp}
use tei_manager.Instance.{ProcessManager, TeiInstance, AnyError}
use tei_manager.Instance
use tei_manager.Errors.{TeiError}
use tei_manager.Registry.{Registry, RegistryError, add, get, take_out}
use tei_manager.Registry.Moves.{Moved, view, Kept, Created, Gone, AddView, add-AddView, erase-Gone}
use tei_manager.Registry.World.{World, remove}
use tei_manager.Registry.World.Addition.{add_instance-registry}
use tei_manager.Api.{
  CreateInstanceRequest, AppState, GpuInfo, Handler, config_of, check_gpu, create_instance,
  delete_instance, start_instance, stop_instance, restart_instance,
}
use tei_manager.Api.Handlers.{check_gpu-state}

-- A handler's effect on the registry.
abbrev MovedBy : {P A : Type 0} → Handler P A → AppState P → Type 0
MovedBy handler s = Moved s.world.registry (handler s).1.world.registry

abbrev pub is_ok : {E A : Type 0} → Result E A → Bool
is_ok (ok _) = true
is_ok (err _) = false

module _ {P : Type 0} (pm : ProcessManager P) where
  -- A removal finds no such name, and says so, or takes the name out.
  remove-registry :
      (name : String) (w : World P)
      → ((lookup name w.registry.instances ≡ none)
          × ((remove pm name w).1.registry ≡ w.registry)
          × (is_ok (remove pm name w).0 ≡ false))
        ⊎ ((lookup name w.registry.instances ≢ none)
            × ((remove pm name w).1.registry ≡ record w.registry {
              instances = erase name w.registry.instances;
              events = (remove pm name w).1.registry.events;
            }))
  unfolding remove take_out
  remove-registry name w = elim (Option-cases (lookup name w.registry.instances)) [
    | inl e ↦ inl (e, ground (arith, e), ground (arith, e))
    | inr (i, e) ↦
        inr ((λ k. ground (arith, e, k)), stopped i e (Instance.stop pm i w.runtime) refl)
  ]
    where
      stopped :
          (i : TeiInstance) (e : lookup name w.registry.instances ≡ some i)
          (r : Result AnyError (Unit {0}) × _)
          → Instance.stop pm i w.runtime ≡ r
          → (remove pm name w).1.registry ≡ record w.registry {
            instances = erase name w.registry.instances;
            events = (remove pm name w).1.registry.events;
          }
      stopped i e (ok u, r) k = ground (arith, e, k)
      stopped i e (err x, r) k = ground (arith, e, k)

  module _ (now : Timestamp) where
    -- A creation is refused before the registry is asked, or leaves it as `add` does, and is refused
    -- where `add` refuses.
    pub create_instance-registry :
        (free : ℕ → Bool) (gpus : GpuInfo) (req : CreateInstanceRequest) (s : AppState P)
        → let (answer, s') = create_instance pm now free gpus req s in
          let (res, r') = add free (config_of now req) s.world.registry in
          ((s'.world.registry ≡ s.world.registry) × (is_ok answer ≡ false))
          ⊎ ((s'.world.registry ≡ r') × (is_ok res ≡ false → is_ok answer ≡ false))
    unfolding create_instance
    create_instance-registry free gpus req s = by_gpu (check_gpu gpus req.gpu_id s).0 refl
      where
        Goal : Type 0
        Goal =
            let (answer, s') = create_instance pm now free gpus req s in
            let (res, r') = add free (config_of now req) s.world.registry in
            ((s'.world.registry ≡ s.world.registry) × (is_ok answer ≡ false))
            ⊎ ((s'.world.registry ≡ r') × (is_ok res ≡ false → is_ok answer ≡ false))

        by_gpu : (r : Result TeiError (Unit {0})) → (check_gpu gpus req.gpu_id s).0 ≡ r → Goal
        by_gpu (err e) k = inl (ground (arith, k, check_gpu-state gpus req.gpu_id s))
        by_gpu (ok u) k =
            let added = add_instance-registry free (config_of now req) s.world in
            let same = check_gpu-state gpus req.gpu_id s in
            inr (ground (arith, k, same, added), λ h. ground (arith, k, same, added, h))

    pub create_instance-Moved :
        (free : ℕ → Bool) (gpus : GpuInfo) (req : CreateInstanceRequest) (s : AppState P)
        → MovedBy (create_instance pm now free gpus req) s
    create_instance-Moved free gpus req s = elim (create_instance-registry free gpus req s) [
      | inl (same, _) ↦ inl same
      | inr (same, _) ↦ inr (inl (free, config_of now req, same))
    ]

    delete_instance-world :
        (name : String) (s : AppState P)
        → ((delete_instance pm now name s).1.world.registry ≡ (remove pm name s.world).1.registry)
          × (is_ok (delete_instance pm now name s).0 ≡ is_ok (remove pm name s.world).0)
    unfolding delete_instance
    delete_instance-world name s = ground arith

    pub delete_instance-Moved :
        (name : String) (s : AppState P) → MovedBy (delete_instance pm now name) s
    delete_instance-Moved name s =
        let (same, _) = delete_instance-world name s in
        subst (λ r. Moved s.world.registry r) (sym same)
          (elim (remove-registry name s.world) [
            | inl (_, kept, _) ↦ inl kept
            | inr (_, e) ↦ inr (inr (inl (name, e)))
          ])

    pub start_instance-registry :
        (name : String) (s : AppState P)
        → (start_instance pm now name s).1.world.registry ≡ s.world.registry
    unfolding start_instance
    start_instance-registry name s = ground arith

    pub stop_instance-registry :
        (name : String) (s : AppState P)
        → (stop_instance pm now name s).1.world.registry ≡ s.world.registry
    unfolding stop_instance
    stop_instance-registry name s = ground arith

    pub restart_instance-registry :
        (name : String) (s : AppState P)
        → (restart_instance pm now name s).1.world.registry ≡ s.world.registry
    unfolding restart_instance
    restart_instance-registry name s = ground arith

    -- A deletion is a removal, whose failures are all answered alike.
    pub delete_instance-remove :
        (name : String) (s : AppState P)
        → ((delete_instance pm now name s).1.world ≡ (remove pm name s.world).1)
          × ((delete_instance pm now name s).0 ≡ ok tt → (remove pm name s.world).0 ≡ ok tt)
    unfolding delete_instance
    delete_instance-remove name s = (ground arith, λ h. ground (arith, h))

    -- What the two handlers that change the registry do to the instances by name: a creation that is
    -- answered with success adds the instance, one that fails adds it or does nothing.
    pub create_instance-view :
        (free : ℕ → Bool) (gpus : GpuInfo) (req : CreateInstanceRequest) (s : AppState P)
        → let (answer, s') = create_instance pm now free gpus req s in
          Created (config_of now req) (view s.world.registry) (view s'.world.registry)
          ⊎ (Kept (view s.world.registry) (view s'.world.registry) × (is_ok answer ≡ false))
    create_instance-view free gpus req s = elim (create_instance-registry free gpus req s) [
      | inl (same, refused) ↦ inr (λ name. ap (λ r. view r name) same, refused)
      | inr (same, refuses) ↦
          by_add (add free (config_of now req) s.world.registry)
            (add-AddView free (config_of now req) s.world.registry) same refuses
    ]
      where
        by_add :
            (res : Result RegistryError TeiInstance × Registry)
            → AddView (config_of now req) (view s.world.registry) res
            → (create_instance pm now free gpus req s).1.world.registry ≡ res.1
            → (is_ok res.0 ≡ false → is_ok (create_instance pm now free gpus req s).0 ≡ false)
            → Created
                (config_of now req)
                (view s.world.registry)
                (view (create_instance pm now free gpus req s).1.world.registry)
              ⊎ (Kept
                    (view s.world.registry)
                    (view (create_instance pm now free gpus req s).1.world.registry)
                  × (is_ok (create_instance pm now free gpus req s).0 ≡ false))
        by_add (ok i, r') a same refuses =
            inl (
              subst (λ r. Created (config_of now req) (view s.world.registry) (view r)) (sym same)
                a)
        by_add (err e, r') a same refuses =
            inr (subst (λ r. Kept (view s.world.registry) (view r)) (sym same) a, refuses refl)

    -- A deletion ends its name, and is answered with success only where that was there.
    pub delete_instance-view :
        (name : String) (s : AppState P)
        → let (answer, s') = delete_instance pm now name s in
          Gone name (view s.world.registry) (view s'.world.registry)
          × (view s.world.registry name ≡ none → is_ok answer ≡ false)
    unfolding get
    delete_instance-view name s =
        let (same, alike) = delete_instance-world name s in
        elim (remove-registry name s.world) [
          | inl (unknown, kept, refused) ↦ (
            record {
              ended = ap (λ r. get name r) (same ∙ kept) ∙ unknown;
              others = λ other ne. ap (λ r. get other r) (same ∙ kept);
            },
            λ h. alike ∙ refused,
          )
          | inr (known, e) ↦ (
            erase-Gone name s.world.registry (delete_instance pm now name s).1.world.registry
                (ap (λ r. r.instances) (same ∙ e)),
            λ h. absurd (known h),
          )
        ]
