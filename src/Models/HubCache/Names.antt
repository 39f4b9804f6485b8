-- ===== src/Models/HubCache/Names.antt =====
-- The two conversions of src/models/cache.rs between model ids and directory names.
use tei_manager.Base.{
  ◌≡◌, ◌↔◌, ◌∙◌, refl, sym, ap, subst, true, Option, none, some, [], ◌∷◌, ◌++◌, arith,
}
use tei_manager.Base.Text.{codes, has_prefix, contains, contains_code}
use tei_manager.Models.HubCache.{
  Text, replace_slashes, replace_dashes, strip_prefix, models_prefix, model_id_to_cache_name,
  cache_name_to_model_id,
}

abbrev pub HasSlash : Text → Type 0
HasSlash cs = contains_code b'/' cs ≡ true

abbrev pub HasDoubleDash : Text → Type 0
HasDoubleDash cs = contains (codes "--") cs ≡ true

replace_slashes-none : (cs : Text) → ¬ HasSlash cs → replace_slashes cs ≡ cs
unfolding replace_slashes contains_code
replace_slashes-none [] h = refl
replace_slashes-none (c ∷ cs) h = ground (arith, replace_slashes-none cs)

replace_slashes-dashes : (cs : Text) → ¬ HasSlash cs → replace_slashes (replace_dashes cs) ≡ cs
unfolding replace_slashes replace_dashes contains_code
replace_slashes-dashes [] h = refl
replace_slashes-dashes (c ∷ []) h = ground (arith, h)
replace_slashes-dashes (c ∷ d ∷ cs) h =
    ground (arith, h, replace_slashes-dashes (d ∷ cs), replace_slashes-none cs)

replace_slashes-middle :
    (org name : Text)
    → ¬ HasSlash org
    → ¬ HasSlash name
    → replace_slashes (org ++ (b'/' ∷ name)) ≡ org ++ (b'-' ∷ b'-' ∷ name)
unfolding replace_slashes contains_code
replace_slashes-middle [] name h k = ground (arith, replace_slashes-none name k)
replace_slashes-middle (c ∷ org) name h k = ground (arith, h, replace_slashes-middle org name)

replace_dashes-middle :
    (org name : Text)
    → (replace_dashes (org ++ (b'-' ∷ b'-' ∷ name)) ≡ org ++ (b'/' ∷ name))
      ↔ (¬ HasDoubleDash (org ++ (b'-' ∷ [])))
unfolding replace_dashes contains has_prefix
replace_dashes-middle [] name = ground arith
replace_dashes-middle (c ∷ []) name = ground arith
replace_dashes-middle (c ∷ d ∷ org) name = ground (arith, replace_dashes-middle (d ∷ org) name)

strip_prefix-append : (ps cs : Text) → strip_prefix ps (ps ++ cs) ≡ some cs
unfolding strip_prefix
strip_prefix-append [] cs = refl
strip_prefix-append (p ∷ ps) cs = ground (arith, strip_prefix-append ps cs)

strip_prefix-some : (ps cs rest : Text) → strip_prefix ps cs ≡ some rest → cs ≡ ps ++ rest
unfolding strip_prefix
strip_prefix-some [] cs rest h = ground (arith, h)
strip_prefix-some (p ∷ ps) [] rest h = ground (arith, h)
strip_prefix-some (p ∷ ps) (c ∷ cs) rest h = ground (arith, h, strip_prefix-some ps cs rest)

HasSlash-append : (ps cs : Text) → HasSlash cs → HasSlash (ps ++ cs)
unfolding contains_code
HasSlash-append [] cs h = h
HasSlash-append (p ∷ ps) cs h = ground (arith, HasSlash-append ps cs h)

-- The id that a directory is listed under leads back to that directory, for every directory name:
-- those have no slash.
pub cache_name-model_id :
    (dir model_id : Text)
    → ¬ HasSlash dir
    → cache_name_to_model_id dir ≡ some model_id
    → model_id_to_cache_name model_id ≡ dir
unfolding model_id_to_cache_name cache_name_to_model_id
cache_name-model_id dir model_id h e = stripped (strip_prefix models_prefix dir) refl e
  where
    stripped :
        (r : Option Text)
        → strip_prefix models_prefix dir ≡ r
        → (elim r [ none ↦ none | some rest ↦ some (replace_dashes rest) ]) ≡ some model_id
        → models_prefix ++ replace_slashes model_id ≡ dir
    stripped none r e = absurd (ground (arith, e))
    stripped (some rest) r e =
        let whole : dir ≡ models_prefix ++ rest = strip_prefix-some models_prefix dir rest r in
        let clean : ¬ HasSlash rest =
          λ k. h (subst HasSlash (sym whole) (HasSlash-append models_prefix rest k)) in
        let id : replace_dashes rest ≡ model_id = ground (arith, e) in
        ap (λ t. models_prefix ++ replace_slashes t) (sym id)
        ∙ ap (λ t. models_prefix ++ t) (replace_slashes-dashes rest clean)
        ∙ sym whole

converted :
    (model_id : Text)
    → cache_name_to_model_id (model_id_to_cache_name model_id)
      ≡ some (replace_dashes (replace_slashes model_id))
unfolding model_id_to_cache_name cache_name_to_model_id
converted model_id =
    ap (λ r. elim r [ none ↦ none | some rest ↦ some (replace_dashes rest) ])
      (strip_prefix-append models_prefix (replace_slashes model_id))

replace_slashes-clean : (cs : Text) → ¬ HasSlash (replace_slashes cs)
unfolding replace_slashes contains_code
replace_slashes-clean [] h = ground (arith, h)
replace_slashes-clean (c ∷ cs) h = ground (arith, h, replace_slashes-clean cs)

pub model_id_to_cache_name-prefix :
    (model_id : Text) → has_prefix models_prefix (model_id_to_cache_name model_id) ≡ true
unfolding model_id_to_cache_name has_prefix
model_id_to_cache_name-prefix model_id = refl

pub model_id_to_cache_name-clean : (model_id : Text) → ¬ HasSlash (model_id_to_cache_name model_id)
unfolding model_id_to_cache_name contains_code
model_id_to_cache_name-clean model_id h = replace_slashes-clean model_id h

-- An id of an organisation and a name, neither with a slash, is found again from its directory's name
-- exactly if the organisation has no two dashes in a row and does not end in a dash.
pub model_id-cache_name_iff :
    (org name : Text)
    → ¬ HasSlash org
    → ¬ HasSlash name
    → (cache_name_to_model_id (model_id_to_cache_name (org ++ (b'/' ∷ name)))
        ≡ some (org ++ (b'/' ∷ name)))
      ↔ (¬ HasDoubleDash (org ++ (b'-' ∷ [])))
model_id-cache_name_iff org name h k =
    let id : Text = org ++ (b'/' ∷ name) in
    let e =
      converted id ∙ ap (λ t. some (replace_dashes t)) (replace_slashes-middle org name h k) in
    subst (λ o. (o ≡ some id) ↔ (¬ HasDoubleDash (org ++ (b'-' ∷ [])))) (sym e)
      (
        λ same. (replace_dashes-middle org name).0 (ground (arith, same)),
        λ clean. ap some ((replace_dashes-middle org name).1 clean),
      )
