-- ===== src/Models/Catalog.antt =====
-- The rest of src/models/registry.rs and of the model handlers of src/api/handlers.rs: filling the
-- registry at the start, counting, listing by name, what a client is told of a model, and the
-- handlers that list and add. The decoding of an id out of a path is left out.
pub mod Own
pub mod Runs
pub mod Order
mod Tests
use tei_manager.Base.{
  ℕ, ◌+◌, String, Bool, true, false, Option, none, some, List, [], ◌∷◌, map, if◌then◌else◌, length,
}
use tei_manager.Base.Dict.{lookup, contains_key}
use tei_manager.Base.Text.{codes}
use tei_manager.Config.{Timestamp}
use tei_manager.Models.{
  ModelStatus, PathBuf, CacheInfo, ModelEntry, Models, Cache, add_model, discover_cached_models,
}
use tei_manager.Models.HubCache.{text_leb}

-- `src/api/models.rs`: what a client is told.
pub record ModelInfo (M : Type 0) : Type 0 where
  pub model_id : String
  pub status : ModelStatus
  pub downloaded : Bool
  pub cache_path : Option PathBuf
  pub cache_size_bytes : Option ℕ
  pub last_verified : Option Timestamp
  pub verification_error : Option String
  pub metadata : Option M
  pub added_at : Timestamp

abbrev is_some : {A : Type 0} → Option A → Bool
is_some none = false
is_some (some _) = true

abbrev option_map : {A B : Type 0} → (A → B) → Option A → Option B
option_map f none = none
option_map f (some a) = some (f a)

module _ {M : Type 0} where
  -- `ModelInfo::from`.
  unfoldable pub model_info : ModelEntry M → ModelInfo M
  model_info e = record {
    model_id = e.model_id;
    status = e.status;
    downloaded = is_some e.cache_info;
    cache_path = option_map (λ c. c.path) e.cache_info;
    cache_size_bytes = option_map (λ c. c.size_bytes) e.cache_info;
    last_verified = e.last_verified;
    verification_error = e.verification_error;
    metadata = e.metadata;
    added_at = e.added_at;
  }

  unfoldable pub values : Models M → List (ModelEntry M)
  values [] = []
  values ((k, e) ∷ models) = e ∷ values models

  -- `a.model_id.cmp(&b.model_id)`, where it is not greater.
  abbrev pub id_leb : ModelEntry M → ModelEntry M → Bool
  id_leb a b = text_leb (codes a.model_id) (codes b.model_id)

  unfoldable pub insert_by_id : ModelEntry M → List (ModelEntry M) → List (ModelEntry M)
  insert_by_id e [] = e ∷ []
  insert_by_id e (f ∷ fs) =
      let rest = insert_by_id e fs in if id_leb e f then e ∷ f ∷ fs else f ∷ rest

  -- `sort_by`, as an insertion sort: stable as the source's.
  unfoldable pub sort_by_id : List (ModelEntry M) → List (ModelEntry M)
  sort_by_id [] = []
  sort_by_id (e ∷ es) = insert_by_id e (sort_by_id es)

  -- `ModelRegistry::list`.
  unfoldable pub list : Models M → List (ModelEntry M)
  list models = sort_by_id (values models)

  -- The handler of `GET /models`.
  unfoldable pub list_models : Models M → List (ModelInfo M)
  list_models models = map model_info (list models)

  unfoldable pub count : Models M → ℕ
  count models = length models

  unfoldable pub count_cached : List (ModelEntry M) → ℕ
  count_cached [] = 0
  count_cached (e ∷ es) =
      let rest = count_cached es in if is_some e.cache_info then rest + 1 else rest

  unfoldable pub downloaded_count : Models M → ℕ
  downloaded_count models = count_cached (values models)

module _ {M : Type 0} (c : Cache M) (now : Timestamp) where
  unfoldable pub add_each : List String → Models M → Models M
  add_each [] models = models
  add_each (id ∷ ids) models = add_each ids (add_model c now id models).1

  -- `ModelRegistry::init`.
  unfoldable pub init : List String → Models M
  init configured_models = discover_cached_models c now (add_each configured_models [])

  -- The handler of `POST /models`, with the status of its answer.
  unfoldable pub add_model_handler : String → Models M → (ℕ × ModelInfo M) × Models M
  add_model_handler id models = elim (lookup id models) [
    | some e ↦ ((200, model_info e), models)
    | none ↦ let added = add_model c now id models in ((201, model_info added.0), added.1)
  ]
