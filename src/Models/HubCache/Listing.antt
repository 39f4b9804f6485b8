-- ===== src/Models/HubCache/Listing.antt =====
-- Which models `list_cached_models` of src/models/cache.rs lists, and what it knows of each.
use tei_manager.Base.{
  ◌≡◌, ◌↔◌, ◌⊎◌, inl, inr, refl, true, Option, none, some, List, [], ◌∷◌, arith, Listed, Result, ok,
  err, String,
}
use tei_manager.Base.Text.{has_prefix}
use tei_manager.Models.HubCache.{
  Text, Disk, models_prefix, model_id_to_cache_name, cache_name_to_model_id, readable, has_config,
  find_snapshot, snapshot_in, snapshots_dir, is_model_cached, main_snapshot, get_model_cache_path,
  cached_ids, insert_sorted, sort, list_cached_models,
}
use tei_manager.Models.HubCache.Names.{model_id_to_cache_name-prefix}

Listed-insert : (x y : Text) (ys : List Text) → Listed x (insert_sorted y ys) ↔ Listed x (y ∷ ys)
unfolding insert_sorted
Listed-insert x y [] = (λ h. h, λ h. h)
Listed-insert x y (z ∷ zs) = ground (arith, Listed-insert x y zs)

Listed-sort : (x : Text) (ys : List Text) → Listed x (sort ys) ↔ Listed x ys
unfolding sort
Listed-sort x [] = (λ h. h, λ h. h)
Listed-sort x (y ∷ ys) = ground (arith, Listed-insert x y (sort ys), Listed-sort x ys)

Listed-readable :
    (name : Text) (entries : List (Result String Text))
    → Listed (ok name) entries
    → Listed name (readable entries)
unfolding readable
Listed-readable name [] h = h
Listed-readable name (err e ∷ entries) h = ground (arith, h, Listed-readable name entries)
Listed-readable name (ok other ∷ entries) h = ground (arith, h, Listed-readable name entries)

module _ (disk : Disk) (cache_dir : Text) where
  Listed-cached_ids :
      (model_id : Text) (names : List Text)
      → Listed model_id (cached_ids disk cache_dir names)
      → is_model_cached disk cache_dir model_id ≡ true
  unfolding cached_ids
  Listed-cached_ids model_id [] h = absurd h
  Listed-cached_ids model_id (name ∷ names) h = ground (arith, h, Listed-cached_ids model_id names)

  cached_ids-Listed :
      (model_id name : Text) (names : List Text)
      → Listed name names
      → has_prefix models_prefix name ≡ true
      → cache_name_to_model_id name ≡ some model_id
      → is_model_cached disk cache_dir model_id ≡ true
      → Listed model_id (cached_ids disk cache_dir names)
  unfolding cached_ids
  cached_ids-Listed model_id name [] h p c k = absurd h
  cached_ids-Listed model_id name (other ∷ names) h p c k =
      ground (arith, h, p, c, k, cached_ids-Listed model_id name names)

-- The cache may be read: where the snapshots of a model exist, the cache exists and lists the model's
-- directory.
pub record Reads (disk : Disk) (cache_dir model_id : Text) : Type 0 where
  pub lists :
      disk.exists (snapshots_dir disk cache_dir model_id) ≡ true
      → (disk.exists cache_dir ≡ true)
        × ((entries : List (Result String Text)) × (disk.read_dir cache_dir ≡ some entries)
            × Listed (ok (model_id_to_cache_name model_id)) entries)

find_snapshot-config :
    (disk : Disk) (dir : Text) (names : List Text) (path : Text)
    → find_snapshot disk dir names ≡ some path
    → has_config disk path ≡ true
unfolding find_snapshot
find_snapshot-config disk dir [] path h = absurd (ground (arith, h))
find_snapshot-config disk dir (name ∷ names) path h =
    ground (arith, h, find_snapshot-config disk dir names path)

snapshot_in-config :
    (disk : Disk) (dir path : Text) → snapshot_in disk dir ≡ some path → has_config disk path ≡ true
snapshot_in-config disk dir path h = read (disk.read_dir dir) refl
  where
    read :
        (r : Option (List (Result String Text)))
        → disk.read_dir dir ≡ r
        → has_config disk path ≡ true
    read none r = absurd (ground (arith, r, h))
    read (some entries) r =
        find_snapshot-config disk dir (readable entries) path (ground (arith, r, h))

module _ (disk : Disk) (cache_dir : Text) where
  cached-exists :
      (model_id : Text)
      → is_model_cached disk cache_dir model_id ≡ true
      → disk.exists (snapshots_dir disk cache_dir model_id) ≡ true
  unfolding is_model_cached
  cached-exists model_id h = ground (arith, h)

  Listed-cached :
      (model_id : Text)
      → Listed model_id (list_cached_models disk cache_dir)
      → is_model_cached disk cache_dir model_id ≡ true
  unfolding list_cached_models
  Listed-cached model_id h = read (disk.read_dir cache_dir) refl
    where
      read :
          (r : Option (List (Result String Text)))
          → disk.read_dir cache_dir ≡ r
          → is_model_cached disk cache_dir model_id ≡ true
      read none r = absurd (ground (arith, r, h))
      read (some entries) r =
          let ids = cached_ids disk cache_dir (readable entries) in
          Listed-cached_ids disk cache_dir model_id (readable entries)
            ((Listed-sort model_id ids).0 (ground (arith, r, h)))

  -- Where the cache may be read, an id that is found again from its directory's name is listed
  -- exactly if the model is cached.
  pub list_cached_models_iff :
      (model_id : Text)
      → Reads disk cache_dir model_id
      → cache_name_to_model_id (model_id_to_cache_name model_id) ≡ some model_id
      → Listed model_id (list_cached_models disk cache_dir)
        ↔ (is_model_cached disk cache_dir model_id ≡ true)
  unfolding list_cached_models
  list_cached_models_iff model_id dirs back = (Listed-cached model_id, λ h. listed h)
    where
      listed :
          is_model_cached disk cache_dir model_id ≡ true
          → Listed model_id (list_cached_models disk cache_dir)
      listed h =
          let (there, (entries, read, entry)) = dirs.lists (cached-exists model_id h) in
          let ids = cached_ids disk cache_dir (readable entries) in
          let found : Listed model_id ids =
            cached_ids-Listed disk cache_dir model_id (model_id_to_cache_name model_id)
              (readable entries) (Listed-readable _ entries entry)
              (model_id_to_cache_name-prefix model_id) back h in
          ground (arith, there, read, (Listed-sort model_id ids).1 found)

  -- A cached model has a path: the snapshot that `refs/main` names, if that is there, and otherwise a
  -- directory of its snapshots that has a `config.json`.
  pub cached-path :
      (model_id : Text)
      → is_model_cached disk cache_dir model_id ≡ true
      → (path : Text) × (get_model_cache_path disk cache_dir model_id ≡ some path)
        × ((main_snapshot disk cache_dir model_id ≡ some path)
            ⊎ ((main_snapshot disk cache_dir model_id ≡ none) × (has_config disk path ≡ true)))
  unfolding is_model_cached get_model_cache_path
  cached-path model_id h = main (main_snapshot disk cache_dir model_id) refl
    where
      found_snapshot :
          (r : Option Text)
          → snapshot_in disk (snapshots_dir disk cache_dir model_id) ≡ r
          → (path : Text) × (snapshot_in disk (snapshots_dir disk cache_dir model_id) ≡ some path)
            × (has_config disk path ≡ true)
      found_snapshot none r = absurd (ground (arith, r, h))
      found_snapshot (some path) r = (path, r, snapshot_in-config disk _ path r)

      main :
          (m : Option Text)
          → main_snapshot disk cache_dir model_id ≡ m
          → (path : Text) × (get_model_cache_path disk cache_dir model_id ≡ some path)
            × ((main_snapshot disk cache_dir model_id ≡ some path)
                ⊎ ((main_snapshot disk cache_dir model_id ≡ none) × (has_config disk path ≡ true)))
      main (some path) m = (path, ground (arith, m), inl m)
      main none m =
          let (path, found, config) =
            found_snapshot (snapshot_in disk (snapshots_dir disk cache_dir model_id)) refl in
          (path, ground (arith, m, found), inr (m, config))
