-- ===== src/Models/Scenarios.antt =====
-- Theorems about src/models/cache.rs, metadata.rs, loader.rs and download.rs at concrete inputs.
use tei_manager.Base.{
  ℕ, ◌<◌, ◌≡◌, ◌↔◌, inl, inr, refl, Bool, true, false, ◌||◌, none, some, List, [], ◌∷◌, subst, sym,
  arith, Result, ok, err, Listed, if◌then◌else◌,
}
use tei_manager.Base.Text.{codes, has_prefix, contains, contains_code}
use tei_manager.Models.HubCache.{
  Text, Disk, path_join, model_id_to_cache_name, cache_name_to_model_id, strip_prefix,
  replace_slashes, replace_dashes, readable, is_model_cached, list_cached_models,
}
use tei_manager.Models.HubCache.Names.{model_id-cache_name_iff}
use tei_manager.Models.HubCache.Listing.{list_cached_models_iff}
use tei_manager.Models.HubCache.Sizes.{NoLoops, dir_size, dir_size_ends}
use tei_manager.Models.Metadata.{
  HfModelMetadata, Checked, estimate_parameters, estimate_parameters_bound,
}
use tei_manager.Models.Loader.{default_loader, Child, smoke_test, other_failure}
use tei_manager.Models.Loader.Verdict.{smoke_test_iff}
use tei_manager.Models.Hub.{Hub, text_eq, unique_texts, download_model_to_cache}
use tei_manager.Models.Hub.Complete.{download_model_iff}

model_id-cache_name_iff_example :
    cache_name_to_model_id (model_id_to_cache_name (codes "a-b/c--d")) ≡ some (codes "a-b/c--d")
unfolding contains_code contains has_prefix
model_id-cache_name_iff_example =
    (model_id-cache_name_iff (codes "a-b") (codes "c--d") (λ h. ground (arith, h))
        (λ h. ground (arith, h))).1
      (λ h. ground (arith, h))

-- A disk with one model, of one snapshot.
abbrev disk : Disk
disk = record {
  exists = λ path.
      text_eq path (codes "/h")
      || text_eq path (codes "/h/models--a--b/snapshots")
      || text_eq path (codes "/h/models--a--b/snapshots/r1/config.json");
  read_dir = λ path.
      if text_eq path (codes "/h")
      then some (ok (codes "version.txt") ∷ ok (codes "models--a--b") ∷ [])
      else if text_eq path (codes "/h/models--a--b/snapshots")
      then some (err "gone" ∷ ok (codes "r1") ∷ [])
      else none;
  read_to_string = λ path. none;
  is_dir = λ path. false;
  file_len = λ path. some 10;
}

list_cached_models_iff_example :
    Listed (codes "a/b") (list_cached_models disk (codes "/h"))
    ↔ (is_model_cached disk (codes "/h") (codes "a/b") ≡ true)
unfolding path_join text_eq model_id_to_cache_name replace_slashes cache_name_to_model_id
    strip_prefix replace_dashes
list_cached_models_iff_example =
    list_cached_models_iff disk (codes "/h") (codes "a/b")
      (record {
        lists = λ h. (
          refl,
          (ok (codes "version.txt") ∷ ok (codes "models--a--b") ∷ [], refl, inr (inl refl)),
        );
      })
      refl

-- A directory with a file and an empty directory.
abbrev nested : Disk
nested = record disk {
  read_dir = λ path.
      if text_eq path (codes "/h/d") then some [] else some (ok (codes "f") ∷ ok (codes "d") ∷ []);
  is_dir = λ path. text_eq path (codes "/h/d");
}

abbrev depth : Text → ℕ
depth path = if text_eq path (codes "/h/d") then 0 else 1

nested_ends : NoLoops nested depth
unfolding NoLoops readable
nested_ends dir name entries r listed is = by_dir (text_eq dir (codes "/h/d")) refl
  where
    by_dir : (b : Bool) → text_eq dir (codes "/h/d") ≡ b → depth (path_join dir name) < depth dir
    by_dir true k =
        let none_left : [] ≡ entries = ground (arith, k, r) in
        absurd (subst (λ es. Listed name (readable es)) (sym none_left) listed)
    by_dir false k = ground (arith, k, is)

dir_size_ends_example :
    (n : ℕ) × ((fuel : ℕ) → depth (codes "/h") < fuel → dir_size nested fuel (codes "/h") ≡ some n)
dir_size_ends_example = dir_size_ends nested depth nested_ends (codes "/h")

abbrev small_bert : HfModelMetadata
small_bert = record {
  model_type = some (codes "bert");
  hidden_size = some 384;
  max_position_embeddings = some 512;
  vocab_size = some 30522;
  num_hidden_layers = some 12;
  num_attention_heads = some 12;
}

estimate_parameters_bound_example : estimate_parameters small_bert ≡ some (Checked.value 32954112)
estimate_parameters_bound_example =
    estimate_parameters_bound small_bert 384 12 30522
      (record { hidden_known = refl; layers_known = refl; vocab_known = refl }) (omega arith)
      (omega arith) (omega arith) (λ h. ground (arith, h))

abbrev port_text : ℕ → Text
port_text n = codes "18080"

abbrev started_child : Child
started_child = record {
  stderr = some (codes "INFO Loading" ∷ codes "INFO Starting HTTP server" ∷ codes "Error" ∷ []);
  too_slow = false;
}

abbrev spawns : Text → List Text → Result Text Child
spawns binary args = ok started_child

smoke_test_iff_example : (smoke_test default_loader port_text spawns (codes "a/b")).0 ≡ ok tt
unfolding contains has_prefix other_failure
smoke_test_iff_example =
    (smoke_test_iff default_loader port_text spawns (codes "a/b")).0.1 (record {
      child = started_child;
      lines = codes "INFO Loading" ∷ codes "INFO Starting HTTP server" ∷ codes "Error" ∷ [];
      spawned = refl;
      output = refl;
      quick = refl;
      starts = record {
        before = codes "INFO Loading" ∷ [];
        line = codes "INFO Starting HTTP server";
        after = codes "Error" ∷ [];
        split = refl;
        undecided = ((refl, refl, refl), tt);
        started = refl;
      };
    })

-- A hub whose model has two shards.
abbrev sharded_hub : Hub
sharded_hub = record {
  client = ok tt;
  get = λ file.
      if text_eq file (codes "model.safetensors")
        || text_eq file (codes "pytorch_model.bin")
        || text_eq file (codes "model.onnx")
      then err (codes "404")
      else ok file;
  read_to_string = λ path. ok path;
  parse_index =
      λ content. ok (some (some (codes "s1") ∷ some (codes "s2") ∷ some (codes "s1") ∷ []));
  parent = λ path. some (codes "/h/r1");
}

download_model_iff_example :
    (download_model_to_cache sharded_hub (codes "a/b") []).0 ≡ ok (codes "/h/r1")
unfolding text_eq unique_texts
download_model_iff_example =
    (download_model_iff sharded_hub (codes "a/b") (codes "/h/r1") []).1 (record {
      config_path = codes "config.json";
      client = refl;
      config = refl;
      tokenizer = (codes "tokenizer.json", refl);
      weights = inr (
          inr (
            inr (
              inr (record {
                index_path = codes "model.safetensors.index.json";
                content = codes "model.safetensors.index.json";
                weight_map = some (some (codes "s1") ∷ some (codes "s2") ∷ some (codes "s1") ∷ []);
                index = refl;
                read = refl;
                parsed = refl;
                shards = ((codes "s1", refl), ((codes "s2", refl), tt));
              }))));
      snapshot = refl;
    })
