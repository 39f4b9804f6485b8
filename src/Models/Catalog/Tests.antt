-- ===== src/Models/Catalog/Tests.antt =====
-- The registry of src/models/registry.rs at concrete inputs: two models configured, one in the cache.
use tei_manager.Base.{ℕ, ◌≡◌, ◌↔◌, refl, Bool, true, false, some, [], ◌∷◌, map, Listed}
use tei_manager.Base.Dict
use tei_manager.Base.Dict.{lookup}
use tei_manager.Models
use tei_manager.Models.{
  Models, ModelEntry, ModelStatus, Cache, waiting, get_model, begin_download, set_status, ensure,
  discover_each,
}
use tei_manager.Models.HubCache.{text_leb}
use tei_manager.Models.Catalog.{
  values, insert_by_id, sort_by_id, list, list_models, model_info, count, downloaded_count,
  count_cached, add_each, init, add_model_handler,
}
use tei_manager.Models.Catalog.Own.{IsKeyed}
use tei_manager.Models.Catalog.Runs.{
  Reached, at_start, next, look_up, download, reached-IsKeyed, reached_second_download,
}
use tei_manager.Models.Catalog.Order.{IsOrdered, list_lem}

abbrev cache : Bool → Cache ℕ
cache full = record {
  is_model_cached = λ id. full;
  get_model_cache_path = λ id. some "/cache";
  get_cache_size = λ id. some 10;
  parse_model_config = λ p. some 384;
  list_cached_models = "zeta" ∷ [];
}

abbrev configured : Models ℕ
configured = init (cache false) 5 ("gte" ∷ "bge" ∷ [])

abbrev at_first : Reached configured
at_first = at_start (cache false) 5 ("gte" ∷ "bge" ∷ [])

abbrev downloading : Models ℕ
downloading = (begin_download (cache false) 6 "bge" configured).1

reached-IsKeyed_example : IsKeyed (get_model (cache true) "bge" downloading).1
reached-IsKeyed_example =
    reached-IsKeyed
      (next (next at_first (download (cache false) 6 "bge")) (look_up (cache true) "bge"))

reached_second_download_example :
    begin_download (cache false) 6 "bge" (get_model (cache false) "bge" downloading).1 ≡ (
      waiting,
      set_status "bge" ModelStatus.downloading (get_model (cache false) "bge" downloading).1,
    )
unfolding begin_download ensure Dict.contains_key lookup Models.add_model Dict.insert set_status
    Models.new_model Models.with_cache_info Models.with_metadata init add_each
    Models.discover_cached_models discover_each
reached_second_download_example =
    reached_second_download (cache false) 6 "bge" downloading at_first refl

list_lem_example :
    IsOrdered (list configured)
    × ((e : ModelEntry ℕ) → Listed e (list configured) ↔ (lookup e.model_id configured ≡ some e))
list_lem_example = list_lem at_first

-- The names come in order, the discovered one last.
listed_in_order : map (λ m. m.model_id) (list_models configured) ≡ "bge" ∷ "gte" ∷ "zeta" ∷ []
unfolding Dict.contains_key lookup Models.add_model Dict.insert Models.new_model
    Models.with_cache_info Models.with_metadata Models.cached_path init add_each
    Models.discover_cached_models discover_each list_models model_info list values sort_by_id
    insert_by_id text_leb
listed_in_order = refl

-- All three are known, and none is downloaded.
counts : (count configured ≡ 3) × (downloaded_count configured ≡ 0)
unfolding Dict.contains_key lookup Models.add_model Dict.insert Models.new_model
    Models.with_cache_info Models.with_metadata Models.cached_path init add_each
    Models.discover_cached_models discover_each count downloaded_count count_cached values
counts = (refl, refl)

-- A model that is added again is answered as it stands.
added_again : (add_model_handler (cache true) 9 "bge" configured).1 ≡ configured
unfolding add_model_handler Dict.contains_key lookup Models.add_model Dict.insert Models.new_model
    Models.with_cache_info Models.with_metadata Models.cached_path init add_each
    Models.discover_cached_models discover_each
added_again = refl
