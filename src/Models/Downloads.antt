-- ===== src/Models/Downloads.antt =====
-- The downloads and loads of src/api/handlers.rs against the states of src/models/registry.rs.
use tei_manager.Base.{
  ◌≡◌, ◌≢◌, inl, inr, refl, String, true, false, Option, none, some, arith, ok, err, str_eq_iff,
  Option-cases, ap, ◌∙◌,
}
use tei_manager.Base.Dict.{lookup, contains_key, insert, lookup-insert}
use tei_manager.Config.{Timestamp}
use tei_manager.Errors.{TeiError}
use tei_manager.Models.{
  ModelStatus, ModelEntry, Models, Cache, answered, panicked, waiting, refresh, add_model,
  get_refreshed, set_status, set_verified, set_failed, get_model, begin_download, begin_load,
  finish_load, ensure,
}

module _ {M : Type 0} where
  abbrev pub StatusIs : ModelStatus → Option (ModelEntry M) → Type 0
  StatusIs s none = ⊥
  StatusIs s (some e) = e.status ≡ s

  lookup-insert_same :
      (id : String) (e : ModelEntry M) (models : Models M) → lookup id (insert id e models) ≡ some e
  lookup-insert_same id e models = ground (arith, lookup-insert id id e models, str_eq_iff id id)

  set_status-some :
      (id : String) (s : ModelStatus) (models : Models M) (m : ModelEntry M)
      → lookup id models ≡ some m
      → set_status id s models ≡ insert id (record m { status = s }) models
  unfolding set_status
  set_status-some id s models m h = ground (arith, h)

  lookup-set_status :
      (id : String) (s : ModelStatus) (models : Models M) (m : ModelEntry M)
      → lookup id models ≡ some m
      → lookup id (set_status id s models) ≡ some (record m { status = s })
  lookup-set_status id s models m h =
      rw (set_status-some id s models m h) (lookup-insert_same id (record m { status = s }) models)

module _ {M : Type 0} (c : Cache M) (now : Timestamp) (id : String) where
  lookup-add_model :
      (models : Models M)
      → lookup id (add_model c now id models).1 ≡ some (add_model c now id models).0
  unfolding add_model
  lookup-add_model models = lookup-insert_same id _ models

  lookup-ensure :
      (models : Models M) → (m : ModelEntry M) × (lookup id (ensure c now id models) ≡ some m)
  unfolding ensure contains_key
  lookup-ensure models = elim (Option-cases (lookup id models)) [
    | inr (m, e) ↦ (m, ground (arith, e))
    | inl e ↦ ((add_model c now id models).0, ground (arith, e, lookup-add_model models))
  ]

  -- The download that begins, and a second one.
  lookup-begin_download :
      (models models' : Models M)
      → begin_download c now id models ≡ (waiting, models')
      → (m : ModelEntry M) × (lookup id models' ≡ some m)
        × (m.status ≡ ModelStatus.downloading)
        × (c.is_model_cached id ≡ false)
  unfolding begin_download
  lookup-begin_download models models' h =
      let (m, e) = lookup-ensure models in
      let begun : (c.is_model_cached id ≡ false)
          × (models' ≡ set_status id ModelStatus.downloading (ensure c now id models)) =
        ground arith in
      (
        record m { status = ModelStatus.downloading },
        ap (lookup id) begun.1
            ∙ lookup-set_status id ModelStatus.downloading (ensure c now id models) m e,
        refl,
        begun.0,
      )

  begin_busy :
      (models : Models M) (m : ModelEntry M)
      → lookup id models ≡ some m
      → m.status ≡ ModelStatus.downloading
      → c.is_model_cached id ≡ false
      → begin_download c now id models
        ≡ (answered (err (TeiError.model_busy id "downloading")), models)
  unfolding begin_download contains_key
  begin_busy models m h s u = ground (arith, h, s, u)

  begin_again :
      (models : Models M) (m : ModelEntry M)
      → lookup id models ≡ some m
      → m.status ≡ ModelStatus.available
      → c.is_model_cached id ≡ false
      → begin_download c now id models ≡ (waiting, set_status id ModelStatus.downloading models)
  unfolding begin_download contains_key
  begin_again models m h s u = ground (arith, h, s, u)

  get_model_resets :
      (models : Models M) (m : ModelEntry M)
      → lookup id models ≡ some m
      → m.model_id ≡ id
      → c.is_model_cached id ≡ false
      → (k : ModelEntry M) × (lookup id (get_model c id models).1 ≡ some k)
        × (k.status ≡ ModelStatus.available)
  unfolding get_model get_refreshed refresh
  get_model_resets models m h s u = (
    refresh c m,
    ground (arith, h, lookup-insert_same id (refresh c m) models),
    ground (arith, s, u),
  )

  -- While a download runs, and the cache does not have the model, a second request to download is
  -- refused as busy, and changes nothing.
  pub second_download_busy :
      (models models' : Models M)
      → begin_download c now id models ≡ (waiting, models')
      → begin_download c now id models'
        ≡ (answered (err (TeiError.model_busy id "downloading")), models')
  second_download_busy models models' h =
      let (m, e, s, u) = lookup-begin_download models models' h in begin_busy models' m e s u

  -- But after a request for the model's details the same request starts a second download while the
  -- first one runs: looking the model up takes it for one that was never asked for. The name in the
  -- registry is the model's own.
  pub lookup_allows_second_download :
      (models models' : Models M)
      → begin_download c now id models ≡ (waiting, models')
      → ((m : ModelEntry M) → lookup id models' ≡ some m → m.model_id ≡ id)
      → let seen = (get_model c id models').1 in
        begin_download c now id seen ≡ (waiting, set_status id ModelStatus.downloading seen)
  lookup_allows_second_download models models' h own =
      let (m, e, s, u) = lookup-begin_download models models' h in
      let (k, found, reset) = get_model_resets models' m e (own m e) u in
      begin_again (get_model c id models').1 k found reset u

  -- The `unwrap` of `download_model` cannot fail: the model is in the registry by then.
  pub download_never_panics : (models : Models M) → (begin_download c now id models).0 ≢ panicked
  unfolding begin_download get_refreshed
  download_never_panics models h = let (m, e) = lookup-ensure models in ground (arith, e, h)

  lookup-begin_load :
      (models models' : Models M)
      → begin_load c id models ≡ (waiting, models')
      → (m : ModelEntry M) × (lookup id models' ≡ some m)
        × (m.status ≡ ModelStatus.loading)
        × (c.is_model_cached id ≡ true)
  unfolding begin_load contains_key
  lookup-begin_load models models' h = elim (Option-cases (lookup id models)) [
    | inl e ↦ absurd (ground (arith, e, h))
    | inr (m, e) ↦
        let begun : (c.is_model_cached id ≡ true)
            × (models' ≡ set_status id ModelStatus.loading models) =
          ground (arith, e, h) in
        (
          record m { status = ModelStatus.loading },
          ap (lookup id) begun.1 ∙ lookup-set_status id ModelStatus.loading models m e,
          refl,
          begun.0,
        )
  ]

-- How a load ends, by the smoke test's result.
abbrev pub LoadEnds : {M : Type 0} → Option String → ModelEntry M → Type 0
LoadEnds none e = (e.status ≡ ModelStatus.verified) × (e.verification_error ≡ none)
LoadEnds (some error) e = (e.status ≡ ModelStatus.failed) × (e.verification_error ≡ some error)

module _ {M : Type 0} (c : Cache M) (now : Timestamp) (id : String) where
  -- A load that has begun keeps a second one out, and its end is answered with the model verified,
  -- or failed with the smoke test's error.
  pub load_ends :
      (models models' : Models M) (result : Option String)
      → begin_load c id models ≡ (waiting, models')
      → (begin_load c id models' ≡ (answered (err (TeiError.model_busy id "loading")), models'))
        × ((e : ModelEntry M) × ((finish_load now id result models').0 ≡ ok e) × LoadEnds result e)
  unfolding begin_load contains_key finish_load set_verified set_failed
  load_ends models models' none h =
      let (m, e, s, u) = lookup-begin_load c now id models models' h in
      let end : ModelEntry M = record m {
        status = ModelStatus.verified;
        last_verified = some now;
        verification_error = none;
      } in
      (
        ground (arith, e, s),
        (end, ground (arith, e, lookup-insert_same id end models'), (refl, refl)),
      )
  load_ends models models' (some error) h =
      let (m, e, s, u) = lookup-begin_load c now id models models' h in
      let end : ModelEntry M = record m {
        status = ModelStatus.failed;
        verification_error = some error;
      } in
      (
        ground (arith, e, s),
        (end, ground (arith, e, lookup-insert_same id end models'), (refl, refl)),
      )
