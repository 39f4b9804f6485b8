-- ===== src/Models/Hub/Complete.antt =====
-- When the download of src/models/download.rs succeeds, and what is then there.
use tei_manager.Base.{
  ◌≡◌, ◌↔◌, ◌⊎◌, inl, inr, refl, true, false, Option, some, List, [], ◌∷◌, ◌++◌, arith, Result, ok,
  err, map_err, All, bind_ok, map_err_ok, ◌>>=◌, Action, lift, ok_or,
}
use tei_manager.Base.Text.{codes}
use tei_manager.Models.HubCache.{Text}
use tei_manager.Models.Hub.{
  Hub, DownloadError, ends_with, text_eq, shards_of, index_file, weight_files, optional_files,
  fetch_or, fetch_shards, download_sharded_weights, after_weights, fetch_weights, fetch_optional,
  download_model_to_cache,
}

module _ (hub : Hub) where
  abbrev pub Available : Text → Type 0
  Available file = (path : Text) × (hub.get file ≡ ok path)

  abbrev pub Missing : Text → Type 0
  Missing file = (e : Text) × (hub.get file ≡ err e)

  -- The index can be read, and every shard that it names is there.
  pub record ShardsFine : Type 0 where
    pub index_path : Text
    pub content : Text
    pub weight_map : Option (List (Option Text))
    pub index : hub.get index_file ≡ ok index_path
    pub read : hub.read_to_string index_path ≡ ok content
    pub parsed : hub.parse_index content ≡ ok weight_map
    pub shards : All Available (shards_of weight_map)

  -- Weights in one file, or sharded, or in no file with a standard name.
  abbrev pub WeightsFine : Type 0
  WeightsFine =
      Available (codes "model.safetensors")
      ⊎ (Available (codes "pytorch_model.bin")
          ⊎ (Available (codes "model.onnx") ⊎ (Missing index_file ⊎ ShardsFine)))

  fetch_shards_iff :
      (shards asked : List Text)
      → ((fetch_shards hub shards asked).0 ≡ ok tt) ↔ All Available shards
  unfolding fetch_shards
  fetch_shards_iff [] asked = (λ h. tt, λ h. refl)
  fetch_shards_iff (shard ∷ shards) asked =
      by_get (hub.get shard) refl (fetch_shards_iff shards (asked ++ (shard ∷ [])))
    where
      by_get :
          (r : Result Text Text)
          → hub.get shard ≡ r
          → ((fetch_shards hub shards (asked ++ (shard ∷ []))).0 ≡ ok tt) ↔ All Available shards
          → ((fetch_shards hub (shard ∷ shards) asked).0 ≡ ok tt) ↔ All Available (shard ∷ shards)
      by_get (err e) k ih = (
        λ h. absurd (ground (arith, k, h)),
        λ ((path, got), rest). absurd (ground (arith, k, got)),
      )
      by_get (ok path) k ih = (
        λ h. ((path, k), ih.0 (ground (arith, k, h))),
        λ (got, rest). ground (arith, k, ih.1 rest),
      )

  download_sharded_weights_iff :
      (asked : List Text) → ((download_sharded_weights hub asked).0 ≡ ok tt) ↔ ShardsFine
  unfolding download_sharded_weights
  download_sharded_weights_iff asked = (λ h. by_get (hub.get index_file) refl h, fine)
    where
      by_map :
          (index_path content : Text) (r : Result Text (Option (List (Option Text))))
          → hub.get index_file ≡ ok index_path
          → hub.read_to_string index_path ≡ ok content
          → hub.parse_index content ≡ r
          → (download_sharded_weights hub asked).0 ≡ ok tt
          → ShardsFine
      by_map index_path content (err e) a b c h = absurd (ground (arith, a, b, c, h))
      by_map index_path content (ok weight_map) a b c h = record {
        index_path = index_path;
        content = content;
        weight_map = weight_map;
        index = a;
        read = b;
        parsed = c;
        shards =
            (fetch_shards_iff (shards_of weight_map) (asked ++ (index_file ∷ []))).0
              (ground (arith, a, b, c, h));
      }

      by_content :
          (index_path : Text) (r : Result Text Text)
          → hub.get index_file ≡ ok index_path
          → hub.read_to_string index_path ≡ r
          → (download_sharded_weights hub asked).0 ≡ ok tt
          → ShardsFine
      by_content index_path (err e) a b h = absurd (ground (arith, a, b, h))
      by_content index_path (ok content) a b h =
          by_map index_path content (hub.parse_index content) a b refl h

      by_get :
          (r : Result Text Text)
          → hub.get index_file ≡ r
          → (download_sharded_weights hub asked).0 ≡ ok tt
          → ShardsFine
      by_get (err e) a h = absurd (ground (arith, a, h))
      by_get (ok index_path) a h = by_content index_path (hub.read_to_string index_path) a refl h

      fine : ShardsFine → (download_sharded_weights hub asked).0 ≡ ok tt
      fine s = ground (
        arith,
        s.index,
        s.read,
        s.parsed,
        (fetch_shards_iff (shards_of s.weight_map) (asked ++ (index_file ∷ []))).1 s.shards,
      )

  -- One more file before the others.
  one_weight_iff :
      (file : Text) (files asked : List Text) (Q : Type 0)
      → ends_with (codes ".index.json") file ≡ false
      → ((fetch_weights hub files (asked ++ (file ∷ []))).0 ≡ ok tt) ↔ Q
      → ((fetch_weights hub (file ∷ files) asked).0 ≡ ok tt) ↔ (Available file ⊎ Q)
  unfolding fetch_weights after_weights
  one_weight_iff file files asked Q plain rest = by_get (hub.get file) refl
    where
      by_get :
          (r : Result Text Text)
          → hub.get file ≡ r
          → ((fetch_weights hub (file ∷ files) asked).0 ≡ ok tt) ↔ (Available file ⊎ Q)
      by_get (ok path) k = (λ h. inl (path, k), λ h. ground (arith, k, plain))
      by_get (err e) k = (
        λ h. inr (rest.0 (ground (arith, k, h))),
        λ o. elim o [
          | inl (path, got) ↦ absurd (ground (arith, k, got))
          | inr q ↦ ground (arith, k, rest.1 q)
        ],
      )

  sharded : ends_with (codes ".index.json") index_file ≡ true
  unfolding ends_with text_eq
  sharded = refl

  index_weights_iff :
      (asked : List Text)
      → ((fetch_weights hub (index_file ∷ []) asked).0 ≡ ok tt) ↔ (Missing index_file ⊎ ShardsFine)
  unfolding fetch_weights after_weights
  index_weights_iff asked = by_get (hub.get index_file) refl
    where
      by_get :
          (r : Result Text Text)
          → hub.get index_file ≡ r
          → ((fetch_weights hub (index_file ∷ []) asked).0 ≡ ok tt)
            ↔ (Missing index_file ⊎ ShardsFine)
      by_get (err e) k = (λ h. inl (e, k), λ h. ground (arith, k))
      by_get (ok path) k =
          let fine = download_sharded_weights_iff (asked ++ (index_file ∷ [])) in
          (
            λ h. inr (fine.0 (ground (arith, k, sharded, h))),
            λ o. elim o [
              | inl (e, missing) ↦ absurd (ground (arith, k, missing))
              | inr shards ↦ ground (arith, k, sharded, fine.1 shards)
            ],
          )

  fetch_weights_iff :
      (asked : List Text) → ((fetch_weights hub weight_files asked).0 ≡ ok tt) ↔ WeightsFine
  unfolding ends_with text_eq
  fetch_weights_iff asked = one_weight_iff (codes "model.safetensors") _ asked _ refl (
      one_weight_iff (codes "pytorch_model.bin") _ _ _ refl
        (one_weight_iff (codes "model.onnx") _ _ _ refl (index_weights_iff _)))

  fetch_optional_ok : (files asked : List Text) → (fetch_optional hub files asked).0 ≡ ok tt
  unfolding fetch_optional
  fetch_optional_ok [] asked = refl
  fetch_optional_ok (file ∷ files) asked = fetch_optional_ok files (asked ++ (file ∷ []))

  -- What a download that succeeds has found.
  pub record Downloaded (path : Text) : Type 0 where
    pub config_path : Text
    pub client : hub.client ≡ ok tt
    pub config : hub.get (codes "config.json") ≡ ok config_path
    pub tokenizer : Available (codes "tokenizer.json")
    pub weights : WeightsFine
    pub snapshot : hub.parent config_path ≡ some path

  module _ (model_id : Text) where
    abbrev finish : Text → Action (List Text) DownloadError Text
    finish config_path = lift (ok_or (hub.parent config_path) (DownloadError.no_snapshot model_id))

    abbrev from_optional : Text → Action (List Text) DownloadError Text
    from_optional config_path = fetch_optional hub optional_files >>= λ _. finish config_path

    abbrev from_weights : Text → Action (List Text) DownloadError Text
    from_weights config_path = fetch_weights hub weight_files >>= λ _. from_optional config_path

    abbrev tokenizer_file : Action (List Text) DownloadError Text
    tokenizer_file =
        fetch_or hub (DownloadError.no_file (codes "tokenizer.json")) (codes "tokenizer.json")

    abbrev from_tokenizer : Text → Action (List Text) DownloadError Text
    from_tokenizer config_path = tokenizer_file >>= λ _. from_weights config_path

    abbrev config_file : Action (List Text) DownloadError Text
    config_file = fetch_or hub (DownloadError.no_file (codes "config.json")) (codes "config.json")

    abbrev the_client : Action (List Text) DownloadError (Unit {0})
    the_client = lift (map_err DownloadError.no_client hub.client)

  -- A download succeeds exactly if there is a client, the hub has `config.json` and `tokenizer.json`,
  -- the weights are fine, and the path of `config.json` has a parent, which is the answer. Weights are
  -- fine if one of the files that hold all of them is there, or if every shard of an index is there, or
  -- if there is no index either: a model without weights is downloaded too.
  pub download_model_iff :
      (model_id path : Text) (asked : List Text)
      → ((download_model_to_cache hub model_id asked).0 ≡ ok path) ↔ Downloaded path
  unfolding download_model_to_cache
  download_model_iff model_id path asked = (
    λ h.
        let (c, client, h₁) =
          bind_ok (the_client model_id) (λ _. config_file model_id >>= from_tokenizer model_id)
            asked path h in
        let asked_config : List Text = asked ++ (codes "config.json" ∷ []) in
        let asked_both : List Text = asked_config ++ (codes "tokenizer.json" ∷ []) in
        let (config_path, config, h₂) =
          bind_ok (config_file model_id) (from_tokenizer model_id) asked path h₁ in
        let (tokenizer, t, h₃) =
          bind_ok (tokenizer_file model_id) (λ _. from_weights model_id config_path) asked_config
            path h₂ in
        let (w, weights, h₄) =
          bind_ok (fetch_weights hub weight_files) (λ _. from_optional model_id config_path)
            asked_both path h₃ in
        let (o, optional, h₅) =
          bind_ok (fetch_optional hub optional_files) (λ _. finish model_id config_path) _ path
            h₄ in
        record {
          config_path = config_path;
          client = map_err_ok DownloadError.no_client hub.client tt client;
          config = map_err_ok _ (hub.get (codes "config.json")) config_path config;
          tokenizer = (tokenizer, map_err_ok _ (hub.get (codes "tokenizer.json")) tokenizer t);
          weights = (fetch_weights_iff _).0 weights;
          snapshot = ground (arith, h₅);
        },
    λ d. ground (
      arith,
      d.client,
      d.config,
      d.tokenizer.1,
      d.snapshot,
      (fetch_weights_iff asked_both).1 d.weights,
      fetch_optional_ok optional_files (fetch_weights hub weight_files asked_both).1,
    ),
  )
    where
      asked_both : List Text
      asked_both = asked ++ (codes "config.json" ∷ []) ++ (codes "tokenizer.json" ∷ [])
