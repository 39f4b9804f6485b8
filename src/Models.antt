-- ===== src/Models.antt =====
-- src/models/registry.rs: the models and their states, and the handlers of src/api/handlers.rs that
-- download and load one. The cache on disk is an argument: what it answers at that moment. A handler
-- that waits for a download or a smoke test is two steps, before and after the wait.
pub mod Downloads
pub mod HubCache
pub mod Metadata
pub mod Loader
pub mod Hub
pub mod Catalog
mod Scenarios
use tei_manager.Base.{
  ℕ, String, Bool, true, false, ◌&&◌, ◌||◌, Option, none, some, List, [], ◌∷◌, map, if◌then◌else◌,
  Result, ok, err, unwrap_or, length, ◌+◌,
}
use tei_manager.Base.Dict.{Dict, lookup, contains_key, insert}
use tei_manager.Config.{Timestamp}
use tei_manager.Errors.{TeiError, Message}

pub data ModelStatus : Type 0 where
  available downloading downloaded loading verified failed : ModelStatus

abbrev pub PathBuf : Type 0
PathBuf = String

pub record CacheInfo : Type 0 where
  pub path : PathBuf
  pub size_bytes : ℕ

-- `M` is the metadata of a model.
pub record ModelEntry (M : Type 0) : Type 0 where
  pub model_id : String
  pub status : ModelStatus
  pub cache_info : Option CacheInfo
  pub metadata : Option M
  pub last_verified : Option Timestamp
  pub verification_error : Option String
  pub added_at : Timestamp

-- The functions of src/models/cache.rs and src/models/metadata.rs.
pub record Cache (M : Type 0) : Type 0 where
  pub is_model_cached : String → Bool
  pub get_model_cache_path : String → Option PathBuf
  pub get_cache_size : String → Option ℕ
  pub parse_model_config : PathBuf → Option M
  pub list_cached_models : List String

abbrev pub is_downloading : ModelStatus → Bool
is_downloading ModelStatus.downloading = true
is_downloading _ = false

abbrev pub is_loading : ModelStatus → Bool
is_loading ModelStatus.loading = true
is_loading _ = false

abbrev pub is_available : ModelStatus → Bool
is_available ModelStatus.available = true
is_available _ = false

-- The status of a model that turns out to be in the cache.
abbrev found_status : ModelStatus → ModelStatus
found_status s = if is_available s || is_downloading s then ModelStatus.downloaded else s

module _ {M : Type 0} where
  -- `ModelEntry::new`.
  pub new_model : Timestamp → String → ModelEntry M
  new_model now id = record {
    model_id = id;
    status = ModelStatus.available;
    cache_info = none;
    metadata = none;
    last_verified = none;
    verification_error = none;
    added_at = now;
  }

  abbrev cache_info_at : Cache M → String → PathBuf → CacheInfo
  cache_info_at c id path = record { path = path; size_bytes = unwrap_or (c.get_cache_size id) 0 }

  cached_path : Cache M → String → Option PathBuf
  cached_path c id = if c.is_model_cached id then c.get_model_cache_path id else none

  pub with_cache_info : Cache M → ModelEntry M → ModelEntry M
  unfolding cached_path
  with_cache_info c e = elim (cached_path c e.model_id) [
    | none ↦ e
    | some path ↦ record e {
      cache_info = some (cache_info_at c e.model_id path);
      status = ModelStatus.downloaded;
    }
  ]

  pub with_metadata : Cache M → ModelEntry M → ModelEntry M
  with_metadata c e = elim e.cache_info [
    | none ↦ e
    | some info ↦ record e { metadata = c.parse_model_config info.path }
  ]

  -- `ModelEntry::refresh`.
  unfoldable pub refresh : Cache M → ModelEntry M → ModelEntry M
  refresh c e =
      if c.is_model_cached e.model_id
      then (elim (c.get_model_cache_path e.model_id) [
        | none ↦ e
        | some path ↦ record e {
          cache_info = some (cache_info_at c e.model_id path);
          metadata = c.parse_model_config path;
          status = found_status e.status;
        }
      ])
      else record e { cache_info = none; metadata = none; status = ModelStatus.available }

abbrev pub Models : Type 0 → Type 0
Models M = Dict (ModelEntry M)

module _ {M : Type 0} (c : Cache M) where
  unfoldable pub add_model : Timestamp → String → Models M → ModelEntry M × Models M
  unfolding new_model with_cache_info with_metadata
  add_model now id models =
      let e = with_metadata c (with_cache_info c (new_model now id)) in (e, insert id e models)

  unfoldable pub get_refreshed : String → Models M → Option (ModelEntry M) × Models M
  get_refreshed id models = elim (lookup id models) [
    | none ↦ (none, models)
    | some e ↦ (some (refresh c e), insert id (refresh c e) models)
  ]

  pub refresh_all : Models M → Models M
  refresh_all models = map (λ e. (e.0, refresh c e.1)) models

  -- `discover_cached_models`, over the list that the cache gave.
  pub discover_each : Timestamp → List String → Models M → Models M
  discover_each now [] models = models
  discover_each now (id ∷ ids) models =
      discover_each now ids (if contains_key id models then models else (add_model now id models).1)

  pub discover_cached_models : Timestamp → Models M → Models M
  discover_cached_models now models = discover_each now c.list_cached_models models

module _ {M : Type 0} where
  abbrev pub update : (ModelEntry M → ModelEntry M) → String → Models M → Models M
  update f id models = elim (lookup id models) [ none ↦ models | some e ↦ insert id (f e) models ]

  unfoldable pub set_status : String → ModelStatus → Models M → Models M
  set_status id s = update (λ e. record e { status = s }) id

  unfoldable pub set_verified : Timestamp → String → Models M → Models M
  set_verified now id =
      update
        (λ e. record e {
          status = ModelStatus.verified;
          last_verified = some now;
          verification_error = none;
        })
        id

  unfoldable pub set_failed : String → String → Models M → Models M
  set_failed id error =
      update (λ e. record e { status = ModelStatus.failed; verification_error = some error }) id

-- How a handler goes on from its first step: with its answer, with the panic of an `unwrap`, or into
-- the wait.
pub data Begun (A : Type 0) : Type 0 where
  answered : Result TeiError A → Begun A
  panicked : Begun A
  waiting : Begun A

module _ {M : Type 0} (c : Cache M) where
  abbrev is_busy : (ModelStatus → Bool) → Option (ModelEntry M) → Bool
  is_busy busy none = false
  is_busy busy (some e) = busy e.status

  -- `get_model`.
  unfoldable pub get_model : String → Models M → Result TeiError (ModelEntry M) × Models M
  get_model id models =
      let (found, models') = get_refreshed c id models in
      (elim found [ none ↦ err (TeiError.model_not_found id) | some e ↦ ok e ], models')

  abbrev unwrapped : Option (ModelEntry M) × Models M → Begun (ModelEntry M) × Models M
  unwrapped (none, models) = (panicked, models)
  unwrapped (some e, models) = (answered (ok e), models)

  -- A model that is not in the registry is added.
  ensure : Timestamp → String → Models M → Models M
  ensure now id models = if contains_key id models then models else (add_model c now id models).1

  -- `download_model` up to the download.
  unfoldable pub begin_download : Timestamp → String → Models M → Begun (ModelEntry M) × Models M
  unfolding ensure
  begin_download now id models =
      let known = ensure now id models in
      if c.is_model_cached id
      then unwrapped (get_refreshed c id known)
      else if is_busy is_downloading (lookup id known)
      then (answered (err (TeiError.model_busy id "downloading")), known)
      else (waiting, set_status id ModelStatus.downloading known)

  -- `download_model` from the download's result on: a failure or nothing.
  unfoldable pub finish_download :
      String → Option String → Models M → Result TeiError (ModelEntry M) × Models M
  finish_download id (some reason) models = (
    err (TeiError.model_download_failed id (Message.text reason)),
    set_status id ModelStatus.available models,
  )
  finish_download id none models = get_model id models

  -- `load_model` up to the smoke test.
  unfoldable pub begin_load : String → Models M → Begun (ModelEntry M) × Models M
  begin_load id models =
      if contains_key id models
      then (if is_busy is_loading (lookup id models)
          then (answered (err (TeiError.model_busy id "loading")), models)
          else if c.is_model_cached id
          then (waiting, set_status id ModelStatus.loading models)
          else (
            answered (
                err (
                  TeiError.model_load_failed id (
                    Message.text
                      "Model not downloaded. Use POST /models/{model_id}/download first."))),
            models,
          ))
      else (answered (err (TeiError.model_not_found id)), models)

abbrev loaded : {M : Type 0} → String → Models M → Result TeiError (ModelEntry M) × Models M
loaded id models =
    (elim (lookup id models) [ none ↦ err (TeiError.model_not_found id) | some e ↦ ok e ], models)

-- `load_model` from the smoke test's result on: a failure or nothing.
unfoldable pub finish_load :
    {M : Type 0}
    → Timestamp
    → String
    → Option String
    → Models M
    → Result TeiError (ModelEntry M) × Models M
finish_load now id none models = loaded id (set_verified now id models)
finish_load now id (some e) models = loaded id (set_failed id e models)
