-- ===== src/Models/Hub.antt =====
-- src/models/download.rs: the download of a model from the hub. The hub's client is an argument; the
-- state is the list of the files that were asked for.
pub mod Complete
use tei_manager.Base.{
  ℕ, zero, suc, ◌≡◌, String, Bool, true, false, ◌&&◌, ◌||◌, Option, none, some, List, [], ◌∷◌, ◌++◌,
  Result, ok, err, map_err, Action, pure, bail, lift, ok_or, ◌>>=◌, ◌>>◌, is_ok, if◌then◌else◌,
  ◌==◌,
}
use tei_manager.Base.Text.{codes, has_prefix}
use tei_manager.Models.HubCache.{Text}

-- What the code calls of the client, of the disk and of the JSON parser. `parse_index` gives the
-- values of the weight map, if there is one, each a text or something else.
pub record Hub : Type 0 where
  pub client : Result Text (Unit {0})
  pub get : Text → Result Text Text
  pub read_to_string : Text → Result Text Text
  pub parse_index : Text → Result Text (Option (List (Option Text)))
  pub parent : Text → Option Text

-- Why a download fails, with the error's text.
pub data DownloadError : Type 0 where
  no_client : Text → DownloadError
  no_file : Text → Text → DownloadError
  no_index : Text → DownloadError
  unreadable_index : Text → DownloadError
  invalid_index : Text → DownloadError
  no_shard : Text → Text → DownloadError
  no_snapshot : Text → DownloadError

unfoldable pub text_eq : Text → Text → Bool
text_eq [] [] = true
text_eq [] (d ∷ ds) = false
text_eq (c ∷ cs) [] = false
text_eq (c ∷ cs) (d ∷ ds) = let rest = text_eq cs ds in c == d && rest

-- `ends_with`.
unfoldable pub ends_with : Text → Text → Bool
ends_with part [] = text_eq part []
ends_with part (c ∷ cs) = let later = ends_with part cs in text_eq part (c ∷ cs) || later

abbrev member : Text → List Text → Bool
member x [] = false
member x (y ∷ ys) = text_eq x y || member x ys

-- The texts among the values, each once. A hash set has them in some order; here it is theirs.
unfoldable pub unique_texts : List Text → List (Option Text) → List Text
unique_texts seen [] = []
unique_texts seen (none ∷ values) = unique_texts seen values
unique_texts seen (some text ∷ values) = elim (member text seen) [
  | true ↦ unique_texts seen values
  | false ↦ text ∷ unique_texts (text ∷ seen) values
]

abbrev pub shards_of : Option (List (Option Text)) → List Text
shards_of none = []
shards_of (some values) = unique_texts [] values

abbrev pub index_file : Text
index_file = codes "model.safetensors.index.json"

abbrev pub weight_files : List Text
weight_files =
    codes "model.safetensors" ∷ codes "pytorch_model.bin" ∷ codes "model.onnx" ∷ index_file ∷ []

abbrev pub optional_files : List Text
optional_files =
    codes "tokenizer_config.json"
    ∷ codes "special_tokens_map.json"
    ∷ codes "vocab.txt"
    ∷ codes "sentence_bert_config.json"
    ∷ codes "modules.json"
    ∷ []

module _ (hub : Hub) where
  -- `repo.get(file)`, with the error's text made by `fail`.
  abbrev pub fetch_or : (Text → DownloadError) → Text → Action (List Text) DownloadError Text
  fetch_or fail file asked = (map_err fail (hub.get file), asked ++ (file ∷ []))

  -- The loop over the shards.
  unfoldable pub fetch_shards : List Text → Action (List Text) DownloadError (Unit {0})
  fetch_shards [] = pure tt
  fetch_shards (shard ∷ shards) = do
    _ ← fetch_or (DownloadError.no_shard shard) shard
    fetch_shards shards

  -- `download_sharded_weights`.
  unfoldable pub download_sharded_weights : Action (List Text) DownloadError (Unit {0})
  download_sharded_weights = do
    index_path ← fetch_or DownloadError.no_index index_file
    content ← lift (map_err DownloadError.unreadable_index (hub.read_to_string index_path))
    weight_map ← lift (map_err DownloadError.invalid_index (hub.parse_index content))
    fetch_shards (shards_of weight_map)

  -- What is done after a weight file was found.
  unfoldable pub after_weights : Text → Action (List Text) DownloadError (Unit {0})
  after_weights file =
      if ends_with (codes ".index.json") file then download_sharded_weights else pure tt

  -- The loop over the weight files: the first that is there.
  unfoldable pub fetch_weights : List Text → Action (List Text) DownloadError (Unit {0})
  fetch_weights [] asked = (ok tt, asked)
  fetch_weights (file ∷ files) asked =
      let later = fetch_weights files (asked ++ (file ∷ [])) in
      elim (hub.get file) [ err e ↦ later | ok path ↦ after_weights file (asked ++ (file ∷ [])) ]

  -- The loop over the optional files, which may all be missing.
  unfoldable pub fetch_optional : List Text → Action (List Text) DownloadError (Unit {0})
  fetch_optional [] asked = (ok tt, asked)
  fetch_optional (file ∷ files) asked = fetch_optional files (asked ++ (file ∷ []))

  -- `download_model_to_cache`.
  unfoldable pub download_model_to_cache : Text → Action (List Text) DownloadError Text
  download_model_to_cache model_id = do
    _ ← lift (map_err DownloadError.no_client hub.client)
    config_path ← fetch_or (DownloadError.no_file (codes "config.json")) (codes "config.json")
    _ ← fetch_or (DownloadError.no_file (codes "tokenizer.json")) (codes "tokenizer.json")
    _ ← fetch_weights weight_files
    _ ← fetch_optional optional_files
    lift (ok_or (hub.parent config_path) (DownloadError.no_snapshot model_id))

  -- `download_model`.
  pub download_model : Text → Action (List Text) DownloadError Text
  download_model = download_model_to_cache
