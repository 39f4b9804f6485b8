-- ===== src/Models/HubCache.antt =====
-- src/models/cache.rs: the models in the cache of the hub. Texts are the code points of strings, and
-- the file system is an argument: what it answers at that moment.
pub mod Names
pub mod Listing
pub mod Sizes
use tei_manager.Base.{
  ℕ, zero, suc, ◌+◌, ◌<◌, String, Bool, true, false, ◌&&◌, ◌||◌, Option, none, some, List, [], ◌∷◌,
  ◌++◌, Result, ok, err, if◌then◌else◌, ltb, leb, ◌==◌,
}
use tei_manager.Base.Text.{codes, has_prefix}

abbrev pub Text : Type 0
Text = List ℕ

-- What the code asks of the file system, through links.
pub record Disk : Type 0 where
  pub exists : Text → Bool
  pub read_dir : Text → Option (List (Result String Text))
  pub read_to_string : Text → Option Text
  pub is_dir : Text → Bool
  pub file_len : Text → Option ℕ

-- The variables and the home directory that decide where the cache is.
pub record Environment : Type 0 where
  pub hf_home : Option Text
  pub xdg_cache_home : Option Text
  pub home_dir : Option Text

abbrev ends_with_slash : Text → Bool
ends_with_slash [] = false
ends_with_slash (c ∷ []) = c == b'/'
ends_with_slash (c ∷ d ∷ cs) = ends_with_slash (d ∷ cs)

abbrev is_absolute : Text → Bool
is_absolute [] = false
is_absolute (c ∷ cs) = c == b'/'

abbrev is_empty : Text → Bool
is_empty [] = true
is_empty (c ∷ cs) = false

-- `PathBuf::join`.
unfoldable pub path_join : Text → Text → Text
path_join path name =
    if is_absolute name
    then name
    else if is_empty path || ends_with_slash path
    then path ++ name
    else path ++ (b'/' ∷ name)

-- `get_cache_dir`.
unfoldable pub get_cache_dir : Environment → Text
get_cache_dir env = elim env.hf_home [
  | some hf_home ↦ path_join hf_home (codes "hub")
  | none ↦ elim env.xdg_cache_home [
    | some xdg_cache ↦ path_join xdg_cache (codes "huggingface/hub")
    | none ↦ elim env.home_dir [
      | some home ↦ path_join home (codes ".cache/huggingface/hub")
      | none ↦ codes "/tmp/huggingface/hub"
    ]
  ]
]

-- `replace('/', "--")`.
unfoldable pub replace_slashes : Text → Text
replace_slashes [] = []
replace_slashes (c ∷ cs) =
    let rest = replace_slashes cs in if c == b'/' then b'-' ∷ b'-' ∷ rest else c ∷ rest

-- `replacen("--", "/", 1)`.
unfoldable pub replace_dashes : Text → Text
replace_dashes [] = []
replace_dashes (c ∷ []) = c ∷ []
replace_dashes (c ∷ d ∷ cs) =
    let rest = replace_dashes (d ∷ cs) in if c == b'-' && d == b'-' then b'/' ∷ cs else c ∷ rest

-- `strip_prefix`.
unfoldable pub strip_prefix : Text → Text → Option Text
strip_prefix [] cs = some cs
strip_prefix (p ∷ ps) [] = none
strip_prefix (p ∷ ps) (c ∷ cs) = let rest = strip_prefix ps cs in if p == c then rest else none

abbrev pub models_prefix : Text
models_prefix = codes "models--"

unfoldable pub model_id_to_cache_name : Text → Text
model_id_to_cache_name model_id = models_prefix ++ replace_slashes model_id

unfoldable pub cache_name_to_model_id : Text → Option Text
cache_name_to_model_id cache_name = elim (strip_prefix models_prefix cache_name) [
  | none ↦ none
  | some rest ↦ some (replace_dashes rest)
]

-- The entries that could be read: `flatten` of results.
unfoldable pub readable : List (Result String Text) → List Text
readable [] = []
readable (err e ∷ entries) = readable entries
readable (ok name ∷ entries) = name ∷ readable entries

abbrev pub has_config : Disk → Text → Bool
has_config disk path = disk.exists (path_join path (codes "config.json"))

-- The first entry of a directory that has a `config.json`.
unfoldable pub find_snapshot : Disk → Text → List Text → Option Text
find_snapshot disk dir [] = none
find_snapshot disk dir (name ∷ names) =
    let rest = find_snapshot disk dir names in
    let path = path_join dir name in if has_config disk path then some path else rest

abbrev pub snapshot_in : Disk → Text → Option Text
snapshot_in disk dir = elim (disk.read_dir dir) [
  | none ↦ none
  | some entries ↦ find_snapshot disk dir (readable entries)
]

abbrev is_white : ℕ → Bool
is_white c = c == b' ' || (leb 9 c && leb c 13)

unfoldable pub trim_start : Text → Text
trim_start [] = []
trim_start (c ∷ cs) = let rest = trim_start cs in if is_white c then rest else c ∷ cs

abbrev reverse_onto : Text → Text → Text
reverse_onto acc [] = acc
reverse_onto acc (c ∷ cs) = reverse_onto (c ∷ acc) cs

-- `str::trim`, of the white space of ASCII.
pub trim : Text → Text
trim cs = reverse_onto [] (trim_start (reverse_onto [] (trim_start cs)))

module _ (disk : Disk) (cache_dir : Text) where
  abbrev pub model_dir : Text → Text
  model_dir model_id = path_join cache_dir (model_id_to_cache_name model_id)

  abbrev pub snapshots_dir : Text → Text
  snapshots_dir model_id = path_join (model_dir model_id) (codes "snapshots")

  -- `is_model_cached`.
  unfoldable pub is_model_cached : Text → Bool
  is_model_cached model_id =
      if disk.exists (snapshots_dir model_id)
      then (elim (snapshot_in disk (snapshots_dir model_id)) [ none ↦ false | some path ↦ true ])
      else false

  -- The snapshot that `refs/main` names, if it is there.
  unfoldable pub main_snapshot : Text → Option Text
  main_snapshot model_id =
      let refs_main = path_join (model_dir model_id) (codes "refs/main") in
      if disk.exists refs_main
      then (elim (disk.read_to_string refs_main) [
        | none ↦ none
        | some revision ↦
            let path = path_join (snapshots_dir model_id) (trim revision) in
            if disk.exists path then some path else none
      ])
      else none

  unfoldable pub get_model_cache_path : Text → Option Text
  get_model_cache_path model_id = elim (main_snapshot model_id) [
    | some path ↦ some path
    | none ↦ snapshot_in disk (snapshots_dir model_id)
  ]

  -- The entries of the cache that are models, as ids.
  unfoldable pub cached_ids : List Text → List Text
  cached_ids [] = []
  cached_ids (name ∷ names) =
      let rest = cached_ids names in
      if has_prefix models_prefix name
      then (elim (cache_name_to_model_id name) [
        | none ↦ rest
        | some model_id ↦ if is_model_cached model_id then model_id ∷ rest else rest
      ])
      else rest

-- `Ord` of strings: by code points, as UTF-8 keeps their order.
unfoldable pub text_leb : Text → Text → Bool
text_leb [] ds = true
text_leb (c ∷ cs) [] = false
text_leb (c ∷ cs) (d ∷ ds) = let rest = text_leb cs ds in ltb c d || (c == d && rest)

-- `sort`.
unfoldable pub insert_sorted : Text → List Text → List Text
insert_sorted x [] = x ∷ []
insert_sorted x (y ∷ ys) =
    let rest = insert_sorted x ys in if text_leb x y then x ∷ y ∷ ys else y ∷ rest

unfoldable pub sort : List Text → List Text
sort [] = []
sort (x ∷ xs) = insert_sorted x (sort xs)

unfoldable pub list_cached_models : Disk → Text → List Text
list_cached_models disk cache_dir =
    if disk.exists cache_dir
    then (elim (disk.read_dir cache_dir) [
      | none ↦ []
      | some entries ↦ sort (cached_ids disk cache_dir (readable entries))
    ])
    else []
