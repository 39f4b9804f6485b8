-- ===== src/Startup/Starts.antt =====
-- What the registry is after a start of src/main.rs, whichever way its instances came.
use tei_manager.Base.{
  ℕ, ◌<◌, ◌≡◌, ◌⊎◌, inl, inr, refl, sym, ap, subst, ◌∙◌, String, Bool, true, false, Option, List,
  [], ◌∷◌, arith, Result, ok, err, map_err, and_then_ok, map_err_ok, Bool-cases,
}
use tei_manager.Config.{ManagerConfig, InstanceConfig, Timestamp}
use tei_manager.Config.Load.{load}
use tei_manager.Config.Validate.{validate}
use tei_manager.Config.Validate.Accepts.{validate_iff}
use tei_manager.Instance.{TeiInstance, ProcessManager, Runtime}
use tei_manager.Registry.{add, u16_mod}
use tei_manager.Registry.Explicit.{add_all}
use tei_manager.Registry.World.{World}
use tei_manager.Registry.World.Addition.{add_instance-registry}
use tei_manager.Auth.{AuthManager}
use tei_manager.State.{
  StorageBackend, Toml, ReadsBack, StateManager, StateError, SavedState, Managed, RestoreReport,
  save, saved_state, restore_with_options, empty_report,
}
use tei_manager.State
use tei_manager.State.Guarded.{RestoreEnds, restore_guard, restore-registry}
use tei_manager.State.RoundTrip.{restore_loop-add_all}
use tei_manager.Startup.{
  Cli, Outside, StartError, Running, state_manager, override_port, build_auth_manager, prepare,
  seed_one, seed, first_instances, fresh, start_up,
}
use tei_manager.Startup.Sound.{IsSound, add_all-IsSound, new_registry-IsSound}

-- A checked configuration has a range above the reserved ports.
pub prepare-low :
    (outside : Outside) (cli : Cli) (config : ManagerConfig) (auth : Option AuthManager)
    → prepare outside cli ≡ ok (config, auth)
    → 0 < config.instance_port_start
unfolding prepare
prepare-low outside cli config auth h =
    let (loaded, l, h₁) =
      and_then_ok (map_err StartError.load_failed (load outside.path_of outside.source cli.config))
        _ (config, auth) h in
    let c : ManagerConfig = override_port cli.port loaded in
    let (u, v, h₂) =
      and_then_ok (map_err StartError.invalid (validate outside.files c)) _ (config, auth) h₁ in
    let (a, b, h₃) = and_then_ok (build_auth_manager outside.make_provider c) _ (config, auth) h₂ in
    let checked =
      (validate_iff outside.files c).0
        (map_err_ok StartError.invalid (validate outside.files c) u v) in
    let same : c ≡ config = ground (arith, h₃) in
    subst (λ q. 0 < q.instance_port_start) same (omega (arith, checked.range_high))

module _ {P : Type 0} (pm : ProcessManager P) where
  seed-add_all :
      (free : ℕ → Bool) (now : Timestamp) (binary : String) (cs : List InstanceConfig) (w : World P)
      → (seed pm free now binary cs w).registry ≡ add_all free cs w.registry
  unfolding seed seed_one add_all
  seed-add_all free now binary [] w = refl
  seed-add_all free now binary (c ∷ cs) w =
      let one : (seed_one pm free now binary c w).registry ≡ (add free c w.registry).1 =
        ground (arith, add_instance-registry free c w) in
      seed-add_all free now binary cs (seed_one pm free now binary c w) ∙ ap (add_all free cs) one

module _ {P D : Type 0} (storage : StorageBackend D) (toml : Toml) (pm : ProcessManager P)
    (free : ℕ → Bool) (now : Timestamp) (ready : TeiInstance → Runtime P → Bool × Runtime P) where
  abbrev pub Adds :
      StateManager → Managed P D → Result StateError RestoreReport × Managed P D → Type 0
  Adds sm m res =
      ((e : StateError) × (res.0 ≡ err e))
      ⊎ ((state : SavedState) × (State.load storage toml sm m.disk ≡ ok state)
          × ((report : RestoreReport) × (res.0 ≡ ok report)))

  ends-Adds :
      (sm : StateManager) (m : Managed P D) (loaded : Result StateError SavedState)
      (res : Result StateError RestoreReport × Managed P D)
      → State.load storage toml sm m.disk ≡ loaded
      → RestoreEnds m loaded res
      → Adds sm m res
  ends-Adds sm m (err e) (r, m') l h = inl (e, h.0)
  ends-Adds sm m (ok state) (ok report, m') l h = inr (state, l, (report, refl))
  ends-Adds sm m (ok state) (err e, m') l h = inl (e, refl)

  -- A restore with no other in progress ends in an error, or adds what it loaded.
  pub restore-Adds :
      (sm : StateManager) (m : Managed P D)
      → m.restore_in_progress ≡ false
      → Adds sm m (restore_with_options storage toml sm pm free now ready true m)
  restore-Adds sm m idle = elim (restore_guard storage toml sm pm free now ready true m) [
    | inl (busy, same) ↦ absurd (ground (arith, busy, idle))
    | inr (i, flag, disk, ends) ↦
        ends-Adds sm m (State.load storage toml sm m.disk)
          (restore_with_options storage toml sm pm free now ready true m) refl ends
  ]

  ends_ok :
      (m : Managed P D) (state : SavedState) (res : Result StateError RestoreReport × Managed P D)
      → RestoreEnds m (ok state) res
      → (report : RestoreReport) × (res.0 ≡ ok report)
  ends_ok m state (ok report, m') h = (report, refl)
  ends_ok m state (err e, m') h = absurd h

  -- A restore of a state that can be read succeeds, if no other is in progress.
  pub restore_succeeds :
      (sm : StateManager) (m : Managed P D) (state : SavedState)
      → m.restore_in_progress ≡ false
      → State.load storage toml sm m.disk ≡ ok state
      → (report : RestoreReport) × ((restore_with_options storage toml sm pm free now ready true
            m).0
          ≡ ok report)
  restore_succeeds sm m state idle l =
      elim (restore_guard storage toml sm pm free now ready true m) [
        | inl (busy, same) ↦ absurd (ground (arith, busy, idle))
        | inr (i, flag, disk, ends) ↦
            ends_ok m state (restore_with_options storage toml sm pm free now ready true m) (
              subst
                (λ q.
                  RestoreEnds m q (restore_with_options storage toml sm pm free now ready true m))
                l ends)
      ]

  first_instances-IsSound :
      (config : ManagerConfig) (m m' : Managed P D)
      → 0 < config.instance_port_start
      → m.restore_in_progress ≡ false
      → IsSound config m.world.registry
      → first_instances storage toml pm free now ready config m ≡ ok m'
      → IsSound config m'.world.registry
  unfolding first_instances
  first_instances-IsSound config m m' low idle s h =
      elim (Bool-cases config.auto_restore_on_restart) [
        | inl auto ↦ by_restore auto (restore-Adds (state_manager config) m idle)
        | inr seeds ↦
            let same : m'.world.registry ≡ add_all free config.instances m.world.registry = ground (
              arith,
              h,
              seeds,
              seed-add_all pm free now config.tei_binary_path config.instances m.world,
            ) in
            subst (IsSound config) (sym same)
              (add_all-IsSound config low free config.instances m.world.registry s)
      ]
    where
      by_restore :
          config.auto_restore_on_restart ≡ true
          → Adds
              (state_manager config)
              m
              (restore_with_options storage toml (state_manager config) pm free now ready true m)
          → IsSound config m'.world.registry
      by_restore auto (inl (e, failed)) = absurd (ground (arith, auto, failed, h))
      by_restore auto (inr (state, l, (report, done))) =
          let loop =
            restore_loop-add_all pm free config.tei_binary_path now state.instances
              (empty_report, []) m.world in
          let same : m'.world.registry ≡ add_all free state.instances m.world.registry = ground (
            arith,
            auto,
            done,
            h,
            restore-registry storage toml (state_manager config) pm free now ready true m state idle
                l,
            loop,
          ) in
          subst (IsSound config) (sym same)
            (add_all-IsSound config low free state.instances m.world.registry s)

  -- A start that succeeds has gone through its two parts.
  pub start_up-parts :
      (outside : Outside) (cli : Cli) (runtime : Runtime P) (disk : D) (s : Running P D)
      → start_up storage toml pm free now ready outside cli runtime disk ≡ ok s
      → (prepare outside cli ≡ ok (s.config, s.auth))
        × (first_instances storage toml pm free now ready s.config
              (fresh storage toml pm free now ready s.config runtime disk)
            ≡ ok s.managed)
  unfolding start_up
  start_up-parts outside cli runtime disk s h =
      let (both, p, h₁) = and_then_ok (prepare outside cli) _ s h in
      let (m, f, h₂) =
        and_then_ok
          (first_instances storage toml pm free now ready both.0
            (fresh storage toml pm free now ready both.0 runtime disk))
          _ s h₁ in
      let started : record { config = both.0; auth = both.1; managed = m } ≡ s =
        ground (arith, h₂) in
      subst
        (λ q.
          (prepare outside cli ≡ ok (q.config, q.auth))
          × (first_instances storage toml pm free now ready q.config
                (fresh storage toml pm free now ready q.config runtime disk)
              ≡ ok q.managed))
        started (p, f)

  -- After a start that succeeds the registry is sound, whether its instances were restored or seeded;
  -- the end of the port range is a `u16`.
  pub start_up-IsSound :
      (outside : Outside) (cli : Cli) (runtime : Runtime P) (disk : D) (s : Running P D)
      → start_up storage toml pm free now ready outside cli runtime disk ≡ ok s
      → s.config.instance_port_end < u16_mod
      → IsSound s.config s.managed.world.registry
  start_up-IsSound outside cli runtime disk s h u16 =
      let (prepared, first) = start_up-parts outside cli runtime disk s h in
      first_instances-IsSound s.config (fresh storage toml pm free now ready s.config runtime disk)
        s.managed (prepare-low outside cli s.config s.auth prepared) refl
        (new_registry-IsSound s.config u16) first
