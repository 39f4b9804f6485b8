-- ===== src/Models/Catalog/Order.antt =====
-- What `list` of src/models/registry.rs, and with it `GET /models`, answers.
use tei_manager.Base.{
  ◌≡◌, ◌≢◌, ◌↔◌, ◌∙◌, refl, sym, ap, subst, String, Bool-cases, true, false, inl, inr, some, List,
  [], ◌∷◌, arith, All, Listed, str_eq, str_eq_iff,
}
use tei_manager.Base.Dict.{lookup}
use tei_manager.Base.Text.{codes}
use tei_manager.Models.{ModelEntry, Models}
use tei_manager.Models.HubCache.{Text, text_leb}
use tei_manager.Models.Catalog.{values, id_leb, insert_by_id, sort_by_id, list}
use tei_manager.Models.Catalog.Own.{IsKeyed, names}
use tei_manager.Models.Catalog.Runs.{Reached, reached-IsKeyed}

text_leb_total : (xs ys : Text) → text_leb xs ys ≡ false → text_leb ys xs ≡ true
unfolding text_leb
text_leb_total [] ys h = ground (arith, h)
text_leb_total (x ∷ xs) [] h = refl
text_leb_total (x ∷ xs) (y ∷ ys) h = ground (arith, h, text_leb_total xs ys)

text_leb_trans :
    (xs ys zs : Text) → text_leb xs ys ≡ true → text_leb ys zs ≡ true → text_leb xs zs ≡ true
unfolding text_leb
text_leb_trans [] ys zs h k = refl
text_leb_trans (x ∷ xs) [] zs h k = ground (arith, h)
text_leb_trans (x ∷ xs) (y ∷ ys) [] h k = ground (arith, k)
text_leb_trans (x ∷ xs) (y ∷ ys) (z ∷ zs) h k = ground (arith, h, k, text_leb_trans xs ys zs)

module _ {M : Type 0} where
  -- `a` comes before `b`: by the order of the names, which differ.
  abbrev pub IsBefore : ModelEntry M → ModelEntry M → Type 0
  IsBefore a b = (id_leb a b ≡ true) × (a.model_id ≢ b.model_id)

  -- Every entry comes before all that follow it.
  abbrev pub IsOrdered : List (ModelEntry M) → Type 0
  IsOrdered [] = Unit
  IsOrdered (e ∷ es) = All (IsBefore e) es × IsOrdered es

  abbrev Apart : ModelEntry M → List (ModelEntry M) → Type 0
  Apart e es = All (λ f. e.model_id ≢ f.model_id) es

  abbrev AreApart : List (ModelEntry M) → Type 0
  AreApart [] = Unit
  AreApart (e ∷ es) = Apart e es × AreApart es

  All-insert_by_id :
      (P : ModelEntry M → Type 0) (e : ModelEntry M) (es : List (ModelEntry M))
      → P e
      → All P es
      → All P (insert_by_id e es)
  unfolding insert_by_id
  All-insert_by_id P e [] p h = (p, tt)
  All-insert_by_id P e (f ∷ fs) p h = elim (Bool-cases (id_leb e f)) [
    | inl before ↦ rw before (p, h)
    | inr after ↦ rw after (h.0, All-insert_by_id P e fs p h.1)
  ]

  All-sort_by_id :
      (P : ModelEntry M → Type 0) (es : List (ModelEntry M)) → All P es → All P (sort_by_id es)
  unfolding sort_by_id
  All-sort_by_id P [] h = tt
  All-sort_by_id P (e ∷ es) h = All-insert_by_id P e _ h.0 (All-sort_by_id P es h.1)

  -- What is before the first of an ordered list is before all of it.
  IsBefore-All :
      (e f : ModelEntry M) (fs : List (ModelEntry M))
      → id_leb e f ≡ true
      → All (IsBefore f) fs
      → Apart e fs
      → All (IsBefore e) fs
  IsBefore-All e f [] h k apart = tt
  IsBefore-All e f (g ∷ gs) h k apart = (
    (text_leb_trans (codes e.model_id) (codes f.model_id) (codes g.model_id) h k.0.0, apart.0),
    IsBefore-All e f gs h k.1 apart.1,
  )

  insert_by_id-IsOrdered :
      (e : ModelEntry M) (es : List (ModelEntry M))
      → Apart e es
      → IsOrdered es
      → IsOrdered (insert_by_id e es)
  unfolding insert_by_id
  insert_by_id-IsOrdered e [] apart h = (tt, tt)
  insert_by_id-IsOrdered e (f ∷ fs) apart h = elim (Bool-cases (id_leb e f)) [
    | inl before ↦ rw before (((before, apart.0), IsBefore-All e f fs before h.0 apart.1), h)
    | inr after ↦
        let back = text_leb_total (codes e.model_id) (codes f.model_id) after in
        rw after (
          All-insert_by_id (IsBefore f) e fs (back, λ same. apart.0 (sym same)) h.0,
          insert_by_id-IsOrdered e fs apart.1 h.1,
        )
  ]

  sort_by_id-IsOrdered : (es : List (ModelEntry M)) → AreApart es → IsOrdered (sort_by_id es)
  unfolding sort_by_id
  sort_by_id-IsOrdered [] h = tt
  sort_by_id-IsOrdered (e ∷ es) h =
      insert_by_id-IsOrdered e _ (All-sort_by_id _ es h.0) (sort_by_id-IsOrdered es h.1)

  Listed-insert_by_id :
      (e f : ModelEntry M) (es : List (ModelEntry M))
      → Listed e (insert_by_id f es) ↔ Listed e (f ∷ es)
  unfolding insert_by_id
  Listed-insert_by_id e f [] = (λ h. h, λ h. h)
  Listed-insert_by_id e f (g ∷ gs) = ground (arith, Listed-insert_by_id e f gs)

  Listed-sort_by_id :
      (e : ModelEntry M) (es : List (ModelEntry M)) → Listed e (sort_by_id es) ↔ Listed e es
  unfolding sort_by_id
  Listed-sort_by_id e [] = (λ h. h, λ h. h)
  Listed-sort_by_id e (f ∷ fs) =
      ground (arith, Listed-insert_by_id e f (sort_by_id fs), Listed-sort_by_id e fs)

  Apart-values :
      (k : String) (e : ModelEntry M) (models : Models M)
      → e.model_id ≡ k
      → All (λ m. m.1.model_id ≡ m.0) models
      → All (λ j. k ≢ j) (names models)
      → Apart e (values models)
  unfolding values
  Apart-values k e [] own h d = tt
  Apart-values k e ((j, f) ∷ models) own h d =
      (λ same. ground (arith, own, h.0, d.0, same), Apart-values k e models own h.1 d.1)

  AreApart-values : (models : Models M) → IsKeyed models → AreApart (values models)
  unfolding values
  AreApart-values [] h = tt
  AreApart-values ((k, e) ∷ models) h =
      (Apart-values k e models h.0.0 h.0.1 h.1.0, AreApart-values models (h.0.1, h.1.1))

  Listed-none :
      (e : ModelEntry M) (models : Models M)
      → All (λ m. m.1.model_id ≡ m.0) models
      → All (λ j. e.model_id ≢ j) (names models)
      → ¬ Listed e (values models)
  unfolding values
  Listed-none e [] h d l = l
  Listed-none e ((j, f) ∷ models) h d (inl same) = d.0 (ap (λ m. m.model_id) same ∙ h.0)
  Listed-none e ((j, f) ∷ models) h d (inr l) = Listed-none e models h.1 d.1 l

  Listed-values :
      (e : ModelEntry M) (models : Models M)
      → IsKeyed models
      → Listed e (values models) ↔ (lookup e.model_id models ≡ some e)
  unfolding values lookup
  Listed-values e [] h = (λ l. absurd l, λ l. ground (arith, l))
  Listed-values e ((k, f) ∷ models) h = elim (Bool-cases (str_eq k e.model_id)) [
    | inl same ↦
        let none_left =
          Listed-none e models h.0.1 (
            subst (λ x. All (λ j. x ≢ j) (names models)) ((str_eq_iff k e.model_id).0 same)
              h.1.0) in
        ground (arith, same, none_left)
    | inr apart ↦
        let differ : e ≢ f = λ same.
          ground (arith, str_eq_iff k e.model_id, apart, h.0.0, ap (λ m. m.model_id) same) in
        let rest = Listed-values e models (h.0.1, h.1.1) in ground (arith, apart, differ, rest)
  ]

  -- However the registry is filled and used, its list is in the order of the names, each name once,
  -- and has exactly the entries that a lookup of their name finds.
  pub list_lem :
      {models : Models M}
      → Reached models
      → IsOrdered (list models)
        × ((e : ModelEntry M) → Listed e (list models) ↔ (lookup e.model_id models ≡ some e))
  unfolding list
  list_lem {models} r =
      let keyed = reached-IsKeyed r in
      (
        sort_by_id-IsOrdered (values models) (AreApart-values models keyed),
        λ e. ground (arith, Listed-sort_by_id e (values models), Listed-values e models keyed),
      )
