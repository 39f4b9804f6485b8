-- ===== src/Manager/Runs.antt =====
-- What holds after any number of steps of the handlers, the monitor and the pool.
use tei_manager.Base.{
  ◌≡◌, ◌⊎◌, inl, inr, refl, ap, arith, String, Bool, true, false, none, List, [], ◌∷◌, ◌++◌,
}
use tei_manager.Config.{InstanceConfig}
use tei_manager.Instance.{ProcessManager}
use tei_manager.Registry.{Registry}
use tei_manager.Registry.Invariant.{IsValid}
use tei_manager.Registry.Moves.{
  Moved, Moved-IsValid, View, view, Kept, Created, Gone, Reordered-Kept,
}
use tei_manager.Health.{HealthMonitorConfig, Probe}
use tei_manager.Api.{config_of, create_instance, delete_instance}
use tei_manager.Api.Effects.{
  is_ok, create_instance-Moved, delete_instance-Moved, start_instance-registry,
  stop_instance-registry, restart_instance-registry, create_instance-view, delete_instance-view,
}
use tei_manager.Manager.{Manager, registry_of, Step, Run}

-- What a client of the instances by name sees of a step: that one was to be created with a
-- configuration, or deleted, and whether that was answered with success; or nothing.
pub data Act : Type 0 where
  creates : InstanceConfig → Bool → Act
  deletes : String → Bool → Act
  internal : Act

-- The specification of an act: what becomes of the instances by name.
abbrev pub Allowed : Act → View → View → Type 0
Allowed (Act.creates c true) old new = Created c old new
Allowed (Act.creates c false) old new = Created c old new ⊎ Kept old new
Allowed (Act.deletes name done) old new = Gone name old new × (old name ≡ none → done ≡ false)
Allowed Act.internal old new = Kept old new

-- The specification's runs, by their acts, the last act at the end.
pub data SpecRun : List Act → View → View → Type 0 where
  start : (v : View) → SpecRun [] v v
  next :
      (acts : List Act) (act : Act) (v v' v'' : View)
      → SpecRun acts v v'
      → Allowed act v' v''
      → SpecRun (acts ++ act ∷ []) v v''

module _ {P : Type 0} (pm : ProcessManager P) (probe : Probe) (config : HealthMonitorConfig) where
  pub Step-Moved :
      (m m' : Manager P) → Step pm probe config m m' → Moved (registry_of m) (registry_of m')
  Step-Moved _ _ (Step.create now free gpus req m) =
      create_instance-Moved pm now free gpus req m.app
  Step-Moved _ _ (Step.delete now name m) = delete_instance-Moved pm now name m.app
  Step-Moved _ _ (Step.start now name m) = inl (start_instance-registry pm now name m.app)
  Step-Moved _ _ (Step.stop now name m) = inl (stop_instance-registry pm now name m.app)
  Step-Moved _ _ (Step.restart now name m) = inl (restart_instance-registry pm now name m.app)
  Step-Moved _ _ (Step.reorder order m p) = inr (inr (inr (order, p, refl)))
  Step-Moved _ _ (Step.begin_round m) = inl refl
  Step-Moved _ _ (Step.check now i rest m w) = inl refl
  Step-Moved _ _ (Step.take_event e later m u) = inl refl
  Step-Moved _ _ (Step.ask_clients connect now name m) = inl refl
  Step-Moved _ _ (Step.prune now m) = inl refl

  -- However the handlers, the monitor and the pool interleave, a registry that is valid stays valid.
  pub Run-IsValid :
      (m m' : Manager P)
      → IsValid (registry_of m)
      → Run pm probe config m m'
      → IsValid (registry_of m')
  Run-IsValid _ _ v (Run.here m) = v
  Run-IsValid _ _ v (Run.after m m' m'' run step) =
      Moved-IsValid (registry_of m') (registry_of m'') (Step-Moved m' m'' step)
        (Run-IsValid m m' v run)

  -- The act of a step, and the acts of a run.
  unfoldable pub act_of : (m m' : Manager P) → Step pm probe config m m' → Act
  act_of _ _ (Step.create now free gpus req m) =
      Act.creates (config_of now req) (is_ok (create_instance pm now free gpus req m.app).0)
  act_of _ _ (Step.delete now name m) =
      Act.deletes name (is_ok (delete_instance pm now name m.app).0)
  act_of _ _ (Step.start now name m) = Act.internal
  act_of _ _ (Step.stop now name m) = Act.internal
  act_of _ _ (Step.restart now name m) = Act.internal
  act_of _ _ (Step.begin_round m) = Act.internal
  act_of _ _ (Step.check now i rest m w) = Act.internal
  act_of _ _ (Step.take_event e later m u) = Act.internal
  act_of _ _ (Step.ask_clients connect now name m) = Act.internal
  act_of _ _ (Step.reorder order m p) = Act.internal
  act_of _ _ (Step.prune now m) = Act.internal

  unfoldable pub acts_of : (m m' : Manager P) → Run pm probe config m m' → List Act
  acts_of _ _ (Run.here m) = []
  acts_of _ _ (Run.after m m' m'' run step) = acts_of m m' run ++ act_of m' m'' step ∷ []

  creates-Allowed :
      (c : InstanceConfig) (done : Bool) (old new : View)
      → Created c old new ⊎ (Kept old new × (done ≡ false))
      → Allowed (Act.creates c done) old new
  creates-Allowed c true old new (inl made) = made
  creates-Allowed c true old new (inr (kept, refused)) = absurd (ground (arith, refused))
  creates-Allowed c false old new (inl made) = inl made
  creates-Allowed c false old new (inr (kept, refused)) = inr kept

  same-Kept : (r r' : Registry) → r' ≡ r → Kept (view r) (view r')
  same-Kept r r' same name = ap (λ q. view q name) same

  step-Allowed :
      (m m' : Manager P) (step : Step pm probe config m m')
      → IsValid (registry_of m)
      → Allowed (act_of m m' step) (view (registry_of m)) (view (registry_of m'))
  unfolding act_of
  step-Allowed _ _ (Step.create now free gpus req m) v =
      creates-Allowed (config_of now req) (is_ok (create_instance pm now free gpus req m.app).0) _ _
        (create_instance-view pm now free gpus req m.app)
  step-Allowed _ _ (Step.delete now name m) v = delete_instance-view pm now name m.app
  step-Allowed _ _ (Step.start now name m) v =
      same-Kept _ _ (start_instance-registry pm now name m.app)
  step-Allowed _ _ (Step.stop now name m) v =
      same-Kept _ _ (stop_instance-registry pm now name m.app)
  step-Allowed _ _ (Step.restart now name m) v =
      same-Kept _ _ (restart_instance-registry pm now name m.app)
  step-Allowed _ _ (Step.begin_round m) v = λ name. refl
  step-Allowed _ _ (Step.check now i rest m w) v = λ name. refl
  step-Allowed _ _ (Step.take_event e later m u) v = λ name. refl
  step-Allowed _ _ (Step.ask_clients connect now name m) v = λ name. refl
  step-Allowed _ _ (Step.reorder order m p) v =
      Reordered-Kept (registry_of m) (record (registry_of m) { instances = order }) (order, p, refl)
        v
  step-Allowed _ _ (Step.prune now m) v = λ name. refl

  -- From a valid registry, every run does to the instances by name what the specification says of its
  -- acts, one by one and in their order. A creation that is answered with success adds an instance
  -- under its name, which was free, with the requested configuration but for the ports, and one that
  -- fails does so too or nothing. A deletion leaves no instance of its name, and succeeds only where
  -- there was one. Nothing else, not the monitor, the pool, a start, a stop or a restart, and no new
  -- order of the entries, changes what a name stands for, and no act touches another name.
  pub Run-SpecRun :
      (m m' : Manager P) (run : Run pm probe config m m')
      → IsValid (registry_of m)
      → SpecRun (acts_of m m' run) (view (registry_of m)) (view (registry_of m'))
  unfolding acts_of
  Run-SpecRun _ _ (Run.here m) v = SpecRun.start (view (registry_of m))
  Run-SpecRun _ _ (Run.after m m' m'' run step) v =
      SpecRun.next (acts_of m m' run) (act_of m' m'' step) (view (registry_of m))
        (view (registry_of m')) (view (registry_of m'')) (Run-SpecRun m m' run v)
        (step-Allowed m' m'' step (Run-IsValid m m' v run))
