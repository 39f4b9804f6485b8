-- ===== src/State/Tests.antt =====
-- Saving and restoring by src/state.rs at concrete inputs.
use tei_manager.Base.{
  ℕ, ◌≡◌, ◌⊎◌, refl, Permᴰ, String, Bool, true, false, Option, none, some, [], ◌∷◌, arith, ok, err,
  str_eq, str_eq_iff, Bool-cases, inl, inr, if◌then◌else◌,
}
use native.Mathlib.Decide.{ℕ_discrete}
use tei_manager.Config.{FilePath, InstanceConfig, default_instance_config, default_state_file}
use tei_manager.Instance.{Runtime, TeiInstance}
use tei_manager.Instance.System.{SystemState}
use tei_manager.Instance.Tests.{toy_manager, toy_runtime}
use tei_manager.Registry.{Registry, new_registry, list}
use tei_manager.Registry.Invariant.{IsValid}
use tei_manager.Registry.Explicit.{configs}
use tei_manager.State.{
  Toml, ReadsBack, SavedState, StateManager, StateError, Managed, save, load, saved_state,
  restore_with_options,
}
use tei_manager.State.Storage.{
  Disk, Faults, SaveEnds, save_atomic, save_others, file_storage, temp_path,
}
use tei_manager.State.Storage
use tei_manager.State.Guarded.{RestoreEnds, restore_guard}
use tei_manager.State.RoundTrip.{restore_after_save}

abbrev pub smooth : Faults
smooth = record {
  create_ok = true;
  write_ok = true;
  sync_ok = true;
  rename_ok = true;
  partial_write = "";
}

-- The write breaks off.
abbrev broken : Faults
broken = record smooth { write_ok = false; partial_write = "[[inst" }

abbrev pub old_disk : Disk
old_disk p = if str_eq p.stem "tei-manager-state" then some "old" else none

save_atomic_example :
    SaveEnds default_state_file "new" old_disk
      (Storage.save broken default_state_file "new" old_disk)
save_atomic_example =
    save_atomic broken default_state_file "new" old_disk
      (λ e. ground (arith, str_eq_iff "toml" "tmp"))

abbrev other_file : FilePath
other_file = record { dir = "/data"; stem = "models"; extension = none }

String-discrete : Discrete String
String-discrete s t = elim (Bool-cases (str_eq s t)) [
  | inl same ↦ yes ((str_eq_iff s t).0 same)
  | inr apart ↦ no (λ e. ground (arith, str_eq_iff s t))
]

pub SavedState-discrete : Discrete SavedState
SavedState-discrete = hlevel (ℕ_discrete, String-discrete)

abbrev pub placed : InstanceConfig
placed = record default_instance_config { name = "a"; port = 8080; prometheus_port = some 9100 }

abbrev pub one_saved : SavedState
one_saved = record { last_updated = 4; instances = placed ∷ [] }

-- A writer that knows one state.
pub write_known : {s known : SavedState} → Dec (s ≡ known) → Option String
write_known (yes e) = some "saved"
write_known (no n) = none

abbrev pub toml_of : SavedState → Toml
toml_of known = record {
  to_string_pretty = λ s. write_known (SavedState-discrete s known);
  from_str = λ t. if str_eq t "saved" then some known else none;
}

toml_of-ReadsBack : (known : SavedState) → ReadsBack (toml_of known)
unfolding write_known
toml_of-ReadsBack known s text e = go (SavedState-discrete s known) e
  where
    go : (d : Dec (s ≡ known)) → write_known d ≡ some text → (toml_of known).from_str text ≡ some s
    go (yes same) w = ground (arith, str_eq_iff text "saved")
    go (no n) w = cc

toml_of_writes : (known : SavedState) → (toml_of known).to_string_pretty known ≡ some "saved"
unfolding write_known
toml_of_writes known = go (SavedState-discrete known known)
  where
    go : (d : Dec (known ≡ known)) → write_known d ≡ some "saved"
    go (yes same) = refl
    go (no n) = absurd (n refl)

abbrev pub toml : Toml
toml = toml_of one_saved

pub toml-ReadsBack : ReadsBack toml
toml-ReadsBack = toml_of-ReadsBack one_saved

pub toml_writes : toml.to_string_pretty one_saved ≡ some "saved"
toml_writes = toml_of_writes one_saved

-- Two instances, which the save gets in the other order.
abbrev second : InstanceConfig
second = record placed { name = "b"; port = 8081; prometheus_port = some 9101 }

abbrev entry_a : String × TeiInstance
entry_a = ("a", record { config = placed; cell = 0 })

abbrev entry_b : String × TeiInstance
entry_b = ("b", record { config = second; cell = 1 })

abbrev two_saved : SavedState
two_saved = record { last_updated = 4; instances = second ∷ placed ∷ [] }

abbrev registry : Registry
registry = record (new_registry none "ter" 8080 8180) {
  instances = entry_a ∷ entry_b ∷ [];
  next_cell = 2;
}

abbrev in_other_order : Registry
in_other_order = record registry { instances = entry_b ∷ entry_a ∷ [] }

registry-IsValid : IsValid registry
unfolding new_registry
registry-IsValid = record {
  keyed = ground arith;
  names_distinct = ground (arith, str_eq_iff "a" "b");
  ports_distinct = ground arith;
  within_max = tt;
  cells_old = ground arith;
  range_u16 = omega arith;
  cursor_low = omega arith;
  cursor_high = ground arith;
}

abbrev manager : StateManager
manager = record { state_file = default_state_file; tei_binary_path = "ter" }

abbrev pub saved_disk : Disk
saved_disk = (Storage.save smooth default_state_file "saved" old_disk).1

save_registry :
    save (file_storage smooth true) (toml_of two_saved) manager 4 in_other_order old_disk
    ≡ (ok tt, saved_disk)
unfolding save saved_state list Storage.save
save_registry = rw (toml_of_writes two_saved) refl

abbrev restarted : Managed (SystemState ℕ) Disk
restarted = record {
  world = record { registry = new_registry none "ter" 9000 9100; runtime = toy_runtime };
  disk = saved_disk;
  restore_in_progress = false;
}

abbrev pub instantly : TeiInstance → Runtime (SystemState ℕ) → Bool × Runtime (SystemState ℕ)
instantly i r = (true, r)

restore_after_save_example : Permᴰ (placed ∷ second ∷ []) (
    configs
      (restore_with_options
        (file_storage smooth true)
        (toml_of two_saved)
        manager
        toy_manager
        (λ p. false)
        9
        instantly
        true
        restarted).1.world.registry)
unfolding new_registry
restore_after_save_example =
    restore_after_save (toml_of two_saved) (toml_of-ReadsBack two_saved) manager smooth toy_manager
      (λ p. false) 4 9 instantly true registry (entry_b ∷ entry_a ∷ []) old_disk restarted "ter"
      9000 9100 (λ e. ground (arith, str_eq_iff "toml" "tmp")) registry-IsValid
      ((λ e. omega arith, λ e. cc), ((λ e. omega arith, λ e. cc), tt)) (Permᴰ.swap refl refl)
      save_registry refl refl

restore_guard_example :
    let res =
      restore_with_options
        (file_storage smooth true)
        toml
        manager
        toy_manager
        (λ p. false)
        9
        instantly
        true
        restarted in
    ((false ≡ true) × (res ≡ (err StateError.already_in_progress, restarted)))
    ⊎ ((false ≡ false)
        × (res.1.restore_in_progress ≡ false)
        × (res.1.disk ≡ saved_disk)
        × RestoreEnds restarted (load (file_storage smooth true) toml manager saved_disk) res)
restore_guard_example =
    restore_guard (file_storage smooth true) toml manager toy_manager (λ p. false) 9 instantly true
      restarted
