-- ===== src/Models/Catalog/Runs.antt =====
-- The registry of src/models/registry.rs in use: any order of the steps of the model handlers of
-- src/api/handlers.rs, and what stays true of it.
use tei_manager.Base.{◌≡◌, ap, subst, String, Option, List}
use tei_manager.Config.{Timestamp}
use tei_manager.Models.{
  ModelStatus, Models, Cache, waiting, refresh_all, set_status, get_model, begin_download,
  finish_download, begin_load, finish_load,
}
use tei_manager.Models.Downloads.{lookup_allows_second_download}
use tei_manager.Models.Catalog.{init, add_model_handler}
use tei_manager.Models.Catalog.Own.{
  IsKeyed, lookup-own, init-IsKeyed, add_model_handler-IsKeyed, get_refreshed-IsKeyed,
  begin_download-IsKeyed, finish_download-IsKeyed, begin_load-IsKeyed, finish_load-IsKeyed,
  refresh_all-IsKeyed,
}

module _ {M : Type 0} where
  -- What may happen to the registry: the handlers' steps, at any time and with any state of the cache,
  -- in any order, also of several requests in turns.
  pub data ModelStep : Models M → Models M → Type 0 where
    add :
        (c : Cache M) (now : Timestamp) (id : String) {models : Models M}
        → ModelStep models (add_model_handler c now id models).1
    look_up :
        (c : Cache M) (id : String) {models : Models M} → ModelStep models (get_model c id models).1
    download :
        (c : Cache M) (now : Timestamp) (id : String) {models : Models M}
        → ModelStep models (begin_download c now id models).1
    download_end :
        (c : Cache M) (id : String) (result : Option String) {models : Models M}
        → ModelStep models (finish_download c id result models).1
    load :
        (c : Cache M) (id : String) {models : Models M}
        → ModelStep models (begin_load c id models).1
    load_end :
        (now : Timestamp) (id : String) (result : Option String) {models : Models M}
        → ModelStep models (finish_load now id result models).1
    refresh_every : (c : Cache M) {models : Models M} → ModelStep models (refresh_all c models)

  -- What the manager's start and such steps reach.
  pub data Reached : Models M → Type 0 where
    at_start :
        (c : Cache M) (now : Timestamp) (configured : List String) → Reached (init c now configured)
    next : {models models' : Models M} → Reached models → ModelStep models models' → Reached models'

  step-IsKeyed :
      {models models' : Models M} → ModelStep models models' → IsKeyed models → IsKeyed models'
  unfolding get_model
  step-IsKeyed (add c now id {models = ms}) h = add_model_handler-IsKeyed c now id ms h
  step-IsKeyed (look_up c id {models = ms}) h = get_refreshed-IsKeyed c id ms h
  step-IsKeyed (download c now id {models = ms}) h = begin_download-IsKeyed c now id ms h
  step-IsKeyed (download_end c id result {models = ms}) h = finish_download-IsKeyed c id result ms h
  step-IsKeyed (load c id {models = ms}) h = begin_load-IsKeyed c id ms h
  step-IsKeyed (load_end now id result {models = ms}) h = finish_load-IsKeyed now id result ms h
  step-IsKeyed (refresh_every c {models = ms}) h = refresh_all-IsKeyed c ms h

  -- However the registry is filled and used, every model stands under its own name, and no name
  -- twice.
  pub reached-IsKeyed : {models : Models M} → Reached models → IsKeyed models
  reached-IsKeyed (at_start c now configured) = init-IsKeyed c now configured
  reached-IsKeyed (next r s) = step-IsKeyed s (reached-IsKeyed r)

  -- While a download of a model that the cache does not have runs, whatever happened before, one
  -- request for the model's details is enough that a second request to download it is not refused as
  -- busy but starts a second download.
  pub reached_second_download :
      (c : Cache M) (now : Timestamp) (id : String) {models : Models M} (models' : Models M)
      → Reached models
      → begin_download c now id models ≡ (waiting, models')
      → let seen = (get_model c id models').1 in
        begin_download c now id seen ≡ (waiting, set_status id ModelStatus.downloading seen)
  reached_second_download c now id {models} models' r h =
      let keyed =
        subst IsKeyed (ap (λ b. b.1) h)
          (begin_download-IsKeyed c now id models (reached-IsKeyed r)) in
      lookup_allows_second_download c now id models models' h
        (λ m found. lookup-own id m models' keyed found)
