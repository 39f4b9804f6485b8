-- ===== src/State/RoundTrip.antt =====
-- `save` and then `restore` of src/state.rs: through the file, the TOML text, and
-- `Registry::add`.

use tei_manager.Base.{
  ℕ, ◌≡◌, ◌≢◌, refl, String, Bool, true, false, Option, none, some, List, [], ◌∷◌, map, arith, ok,
  length-map, All, All-map, IsDistinct, subst, sym, ap, ◌∙◌, ap₂, Permᴰ,
}
use tei_manager.Base.Dict.{Dict}
use tei_manager.Base.Reorder.{All-perm, map-perm}
use tei_manager.Config.{InstanceConfig, Timestamp}
use tei_manager.Instance.{TeiInstance, Runtime, ProcessManager}
use tei_manager.Registry.{Registry, new_registry, list, used_ports}
use tei_manager.Registry.Invariant.{IsValid, WithinMax}
use tei_manager.Registry.Explicit.{IsPlaced, configs, add_all, add_all-configs}
use tei_manager.Registry.Moves.{reordered-IsValid}
use tei_manager.Registry.World.{World}
use tei_manager.State.{
  Toml, ReadsBack, StateManager, Managed, RestoreReport, saved_state, save, save_text, load,
  restore_one, restore_loop, restore_with_options, empty_report,
}
use tei_manager.State.Storage.{Disk, Faults, file_storage, save_atomic}
use tei_manager.State.Storage
use tei_manager.State.Guarded.{restore_one-registry, restore-registry}

pub restore_loop-add_all :
    {P : Type 0} (pm : ProcessManager P) (free : ℕ → Bool) (binary : String) (now : Timestamp)
    (cs : List InstanceConfig) (acc : RestoreReport × List TeiInstance) (w : World P)
    → (restore_loop pm free binary now cs acc w).1.registry ≡ add_all free cs w.registry
unfolding restore_loop add_all
restore_loop-add_all pm free binary now [] acc w = refl
restore_loop-add_all pm free binary now (c ∷ cs) acc w =
    restore_loop-add_all pm free binary now cs _ (restore_one pm free binary now c w).1
    ∙ ap (add_all free cs) (restore_one-registry pm free binary now c w)

-- The configurations of a valid registry can all be added to an empty one.
configs_names :
    (d : Dict TeiInstance)
    → All (λ e. e.0 ≡ e.1.config.name) d
    → map (λ e. e.0) d ≡ map (λ c. c.name) (map (λ e. e.1.config) d)
configs_names [] h = refl
configs_names (e ∷ d) h = ap₂ (λ x xs. x ∷ xs) h.0 (configs_names d h.1)

configs_ports : (d : Dict TeiInstance) → used_ports d ≡ map (λ c. c.port) (map (λ e. e.1.config) d)
configs_ports [] = refl
configs_ports (e ∷ d) = ap (λ xs. e.1.config.port ∷ xs) (configs_ports d)

saved_configs :
    (d : Dict TeiInstance) → map (λ i. i.config) (map (λ e. e.1) d) ≡ map (λ e. e.1.config) d
saved_configs [] = refl
saved_configs (e ∷ d) = ap (λ xs. e.1.config ∷ xs) (saved_configs d)

add_all_saved :
    (free : ℕ → Bool) (r : Registry) (binary : String) (start end : ℕ)
    → IsValid r
    → IsPlaced r
    → configs (add_all free (configs r) (new_registry r.max_instances binary start end)) ≡ configs r
unfolding new_registry
add_all_saved free r binary start end v placed =
    add_all-configs free (configs r) (new_registry r.max_instances binary start end)
      (All-map (λ e. e.1.config) _ r.instances placed)
      (subst IsDistinct (configs_names r.instances v.keyed) v.names_distinct)
      (subst IsDistinct (configs_ports r.instances) v.ports_distinct)
      (subst (WithinMax r.max_instances) (omega (arith, length-map (λ e. e.1.config) r.instances))
        v.within_max)

module _ (toml : Toml) (reads_back : ReadsBack toml) (sm : StateManager) (f : Faults) where
  -- The text that a successful save wrote is the state, as the reader sees it.
  pub load-save :
      (now : Timestamp) (r : Registry) (d d' : Disk)
      → sm.state_file.extension ≢ some "tmp"
      → save (file_storage f true) toml sm now r d ≡ (ok tt, d')
      → load (file_storage f true) toml sm d' ≡ ok (saved_state now r)
  unfolding save load
  load-save now r d d' h e = go (toml.to_string_pretty (saved_state now r)) refl e
    where
      go :
          (t : Option String)
          → toml.to_string_pretty (saved_state now r) ≡ t
          → save_text (file_storage f true) toml sm t d ≡ (ok tt, d')
          → load (file_storage f true) toml sm d' ≡ ok (saved_state now r)
      go none q x = ground arith
      go (some text) q x = ground (
        arith,
        Storage.load-save f sm.state_file text d d' h,
        reads_back (saved_state now r) text q,
      )

  -- The configurations come back in the order in which the save had them.
  restore_in_order :
      {P : Type 0} (pm : ProcessManager P) (free : ℕ → Bool) (saved_at now : Timestamp)
      (ready : TeiInstance → Runtime P → Bool × Runtime P) (wait : Bool) (r : Registry) (d : Disk)
      (m : Managed P Disk) (binary : String) (start end : ℕ)
      → sm.state_file.extension ≢ some "tmp"
      → IsValid r
      → IsPlaced r
      → save (file_storage f true) toml sm saved_at r d ≡ (ok tt, m.disk)
      → m.restore_in_progress ≡ false
      → m.world.registry ≡ new_registry r.max_instances binary start end
      → configs
          (restore_with_options
            (file_storage f true)
            toml
            sm
            pm
            free
            now
            ready
            wait
            m).1.world.registry
        ≡ configs r
  unfolding saved_state list
  restore_in_order pm free saved_at now ready wait r d m binary start end h v placed s idle fresh =
      ap configs (
        restore-registry (file_storage f true) toml sm pm free now ready wait m
          (saved_state saved_at r) idle (load-save saved_at r d m.disk h s))
      ∙ (ap configs
            (restore_loop-add_all pm free sm.tei_binary_path now _ (empty_report, []) m.world)
          ∙ (ap (λ cs. configs (add_all free cs m.world.registry)) (saved_configs r.instances)
              ∙ (ap (λ q. configs (add_all free (configs r) q)) fresh
                  ∙ add_all_saved free r binary start end v placed)))

  -- With a TOML library that reads back what it writes, the instances of a valid registry come back
  -- from a save that succeeds, in whichever order the HashMap gave its entries to that save: after a
  -- restore of the file, with no other in progress, into an empty registry with the same limit,
  -- whatever its port range, the registry holds the same configurations, each as often, in some order,
  -- whether or not the processes start. The state file must not have the extension of the temporary
  -- file, and every instance has its ports.
  pub restore_after_save :
      {P : Type 0} (pm : ProcessManager P) (free : ℕ → Bool) (saved_at now : Timestamp)
      (ready : TeiInstance → Runtime P → Bool × Runtime P) (wait : Bool) (r : Registry)
      (order : Dict TeiInstance) (d : Disk) (m : Managed P Disk) (binary : String) (start end : ℕ)
      → sm.state_file.extension ≢ some "tmp"
      → IsValid r
      → IsPlaced r
      → Permᴰ r.instances order
      → save (file_storage f true) toml sm saved_at (record r { instances = order }) d
        ≡ (ok tt, m.disk)
      → m.restore_in_progress ≡ false
      → m.world.registry ≡ new_registry r.max_instances binary start end
      → Permᴰ (configs r) (
          configs
            (restore_with_options
              (file_storage f true)
              toml
              sm
              pm
              free
              now
              ready
              wait
              m).1.world.registry)
  restore_after_save pm free saved_at now ready wait r order d m binary start end h v placed p s
        idle fresh =
      subst (Permᴰ (configs r))
        (sym (
          restore_in_order pm free saved_at now ready wait (record r { instances = order }) d m
            binary start end h (reordered-IsValid r order p v) (All-perm _ p placed) s idle fresh))
        (map-perm (λ e. e.1.config) p)
