-- ===== src/Models/Catalog/Own.antt =====
-- What the operations of src/models/registry.rs and the model handlers of src/api/handlers.rs keep:
-- every model stands under its own name, once.
use tei_manager.Base.{
  ◌≡◌, ◌≢◌, ◌⊎◌, ◌∙◌, refl, sym, ap, String, Bool-cases, inl, inr, Option, none, some, List, [],
  ◌∷◌, map, arith, All, All-map, All-mono, IsDistinct, Option-cases, str_eq, str_eq_iff, subst,
}
use tei_manager.Base.Dict.{lookup, contains_key, insert, All-lookup}
use tei_manager.Config.{Timestamp}
use tei_manager.Models.{
  ModelStatus, ModelEntry, Models, Cache, refresh, add_model, get_refreshed, refresh_all,
  discover_each, discover_cached_models, update, set_status, set_verified, set_failed, get_model,
  begin_download, finish_download, begin_load, finish_load, ensure, new_model, with_cache_info,
  with_metadata, cached_path,
}
use tei_manager.Models.Catalog.{add_each, init, add_model_handler}

module _ {M : Type 0} where
  abbrev pub names : Models M → List String
  names models = map (λ e. e.0) models

  -- Every entry stands under its own name, and no name stands twice.
  abbrev pub IsKeyed : Models M → Type 0
  IsKeyed models = All (λ e. e.1.model_id ≡ e.0) models × IsDistinct (names models)

  All-names-insert :
      (x k : String) (e : ModelEntry M) (models : Models M)
      → x ≢ k
      → All (λ j. x ≢ j) (names models)
      → All (λ j. x ≢ j) (names (insert k e models))
  unfolding insert
  All-names-insert x k e [] n h = (n, tt)
  All-names-insert x k e ((j, f) ∷ models) n h = elim (Bool-cases (str_eq j k)) [
    | inl same ↦ rw same (n, h.1)
    | inr apart ↦ rw apart (h.0, All-names-insert x k e models n h.1)
  ]

  insert-IsKeyed :
      (k : String) (e : ModelEntry M) (models : Models M)
      → e.model_id ≡ k
      → IsKeyed models
      → IsKeyed (insert k e models)
  unfolding insert
  insert-IsKeyed k e [] own h = ((own, tt), (tt, tt))
  insert-IsKeyed k e ((j, f) ∷ models) own h = elim (Bool-cases (str_eq j k)) [
    | inl same ↦ rw same (
      (own, h.0.1),
      (subst (λ x. All (λ y. x ≢ y) (names models)) ((str_eq_iff j k).0 same) h.1.0, h.1.1),
    )
    | inr apart ↦
        let rest = insert-IsKeyed k e models own (h.0.1, h.1.1) in
        let differ : j ≢ k = λ same. ground (arith, str_eq_iff j k, apart, same) in
        rw apart ((h.0.0, rest.0), (All-names-insert j k e models differ h.1.0, rest.1))
  ]

  pub lookup-own :
      (id : String) (e : ModelEntry M) (models : Models M)
      → IsKeyed models
      → lookup id models ≡ some e
      → e.model_id ≡ id
  lookup-own id e models h found = All-lookup (λ m. m.1.model_id ≡ m.0) id models e h.0 found

  update-IsKeyed :
      (f : ModelEntry M → ModelEntry M) (id : String) (models : Models M)
      → ((m : ModelEntry M) → (f m).model_id ≡ m.model_id)
      → IsKeyed models
      → IsKeyed (update f id models)
  update-IsKeyed f id models keeps h = elim (Option-cases (lookup id models)) [
    | inl e ↦ rw (e, update) h
    | inr (m, e) ↦
        rw (e, update) (insert-IsKeyed id (f m) models (keeps m ∙ lookup-own id m models h e) h)
  ]

  set_status-IsKeyed :
      (id : String) (s : ModelStatus) (models : Models M)
      → IsKeyed models
      → IsKeyed (set_status id s models)
  unfolding set_status
  set_status-IsKeyed id s models h = update-IsKeyed _ id models (λ m. refl) h

  pub finish_load-IsKeyed :
      (now : Timestamp) (id : String) (result : Option String) (models : Models M)
      → IsKeyed models
      → IsKeyed (finish_load now id result models).1
  unfolding finish_load set_verified set_failed
  finish_load-IsKeyed now id none models h = update-IsKeyed _ id models (λ m. refl) h
  finish_load-IsKeyed now id (some error) models h = update-IsKeyed _ id models (λ m. refl) h

module _ {M : Type 0} (c : Cache M) where
  refresh-model_id : (m : ModelEntry M) → (refresh c m).model_id ≡ m.model_id
  unfolding refresh
  refresh-model_id m = ground arith

  with_cache_info-model_id : (m : ModelEntry M) → (with_cache_info c m).model_id ≡ m.model_id
  unfolding with_cache_info cached_path
  with_cache_info-model_id m = ground arith

  with_metadata-model_id : (m : ModelEntry M) → (with_metadata c m).model_id ≡ m.model_id
  unfolding with_metadata
  with_metadata-model_id m = ground arith

  add_model-IsKeyed :
      (now : Timestamp) (id : String) (models : Models M)
      → IsKeyed models
      → IsKeyed (add_model c now id models).1
  unfolding add_model new_model
  add_model-IsKeyed now id models h =
      insert-IsKeyed id _ models (with_metadata-model_id _ ∙ with_cache_info-model_id _) h

  ensure-IsKeyed :
      (now : Timestamp) (id : String) (models : Models M)
      → IsKeyed models
      → IsKeyed (ensure c now id models)
  unfolding ensure
  ensure-IsKeyed now id models h = elim (Bool-cases (contains_key id models)) [
    | inl known ↦ rw known h
    | inr new ↦ rw new (add_model-IsKeyed now id models h)
  ]

  pub get_refreshed-IsKeyed :
      (id : String) (models : Models M) → IsKeyed models → IsKeyed (get_refreshed c id models).1
  unfolding get_refreshed
  get_refreshed-IsKeyed id models h = elim (Option-cases (lookup id models)) [
    | inl e ↦ rw (e, get_refreshed) h
    | inr (m, e) ↦
        rw (e, get_refreshed)
          (insert-IsKeyed id _ models (refresh-model_id m ∙ lookup-own id m models h e) h)
  ]

  add_each-IsKeyed :
      (now : Timestamp) (ids : List String) (models : Models M)
      → IsKeyed models
      → IsKeyed (add_each c now ids models)
  unfolding add_each
  add_each-IsKeyed now [] models h = h
  add_each-IsKeyed now (id ∷ ids) models h =
      add_each-IsKeyed now ids _ (add_model-IsKeyed now id models h)

  discover_each-IsKeyed :
      (now : Timestamp) (ids : List String) (models : Models M)
      → IsKeyed models
      → IsKeyed (discover_each c now ids models)
  unfolding discover_each ensure
  discover_each-IsKeyed now [] models h = h
  discover_each-IsKeyed now (id ∷ ids) models h =
      discover_each-IsKeyed now ids _ (ensure-IsKeyed now id models h)

  pub init-IsKeyed : (now : Timestamp) (ids : List String) → IsKeyed (init c now ids)
  unfolding init discover_cached_models
  init-IsKeyed now ids =
      discover_each-IsKeyed now c.list_cached_models _ (add_each-IsKeyed now ids [] (tt, tt))

  pub add_model_handler-IsKeyed :
      (now : Timestamp) (id : String) (models : Models M)
      → IsKeyed models
      → IsKeyed (add_model_handler c now id models).1
  unfolding add_model_handler
  add_model_handler-IsKeyed now id models h = elim (Option-cases (lookup id models)) [
    | inl e ↦ rw (e, add_model_handler) (add_model-IsKeyed now id models h)
    | inr (m, e) ↦ rw (e, add_model_handler) h
  ]

  pub begin_download-IsKeyed :
      (now : Timestamp) (id : String) (models : Models M)
      → IsKeyed models
      → IsKeyed (begin_download c now id models).1
  unfolding begin_download
  begin_download-IsKeyed now id models h =
      let known = ensure c now id models in
      let h' = ensure-IsKeyed now id models h in
      let ends : ((begin_download c now id models).1 ≡ known)
          ⊎ (((begin_download c now id models).1 ≡ (get_refreshed c id known).1)
              ⊎ ((begin_download c now id models).1
                  ≡ set_status id ModelStatus.downloading known)) =
        ground arith in
      elim ends [
        | inl e ↦ subst IsKeyed (sym e) h'
        | inr (inl e) ↦ subst IsKeyed (sym e) (get_refreshed-IsKeyed id known h')
        | inr (inr e) ↦
            subst IsKeyed (sym e) (set_status-IsKeyed id ModelStatus.downloading known h')
      ]

  pub finish_download-IsKeyed :
      (id : String) (result : Option String) (models : Models M)
      → IsKeyed models
      → IsKeyed (finish_download c id result models).1
  unfolding finish_download get_model
  finish_download-IsKeyed id none models h = get_refreshed-IsKeyed id models h
  finish_download-IsKeyed id (some reason) models h =
      set_status-IsKeyed id ModelStatus.available models h

  pub begin_load-IsKeyed :
      (id : String) (models : Models M) → IsKeyed models → IsKeyed (begin_load c id models).1
  unfolding begin_load
  begin_load-IsKeyed id models h =
      let ends : ((begin_load c id models).1 ≡ models)
          ⊎ ((begin_load c id models).1 ≡ set_status id ModelStatus.loading models) =
        ground arith in
      elim ends [
        | inl e ↦ subst IsKeyed (sym e) h
        | inr e ↦ subst IsKeyed (sym e) (set_status-IsKeyed id ModelStatus.loading models h)
      ]

  names-refresh_all : (models : Models M) → names (refresh_all c models) ≡ names models
  unfolding refresh_all
  names-refresh_all [] = refl
  names-refresh_all ((j, m) ∷ models) = ap (◌∷◌ j) (names-refresh_all models)

  pub refresh_all-IsKeyed : (models : Models M) → IsKeyed models → IsKeyed (refresh_all c models)
  unfolding refresh_all
  refresh_all-IsKeyed models h = (
    All-map (λ e. (e.0, refresh c e.1)) _ models
        (All-mono _ _ models (λ e own. refresh-model_id e.1 ∙ own) h.0),
    subst IsDistinct (sym (names-refresh_all models)) h.1,
  )
