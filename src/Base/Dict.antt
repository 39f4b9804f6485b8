-- ===== src/Base/Dict.antt =====
-- A `HashMap<String, V>` as an association list; its order stands for the map's iteration order, which
-- the program does not fix, so theorems about it hold in every order, or up to order.
use tei_manager.Base.Tests.{if◌then◌else◌, Bool-cases}
use Prim.Native.String.{String}
use Prim.Native.Nat.{◌+◌, ◌≤◌}
use mathlib.Core.Path.{◌≡◌, refl, subst}
use mathlib.Core.Logic.{◌≢◌, inl, inr}
use mathlib.Core.Bool.{Bool, true, false}
use mathlib.Core.Option.{Option, none, some}
use mathlib.Core.List.{List, [], ◌∷◌, ◌++◌, map, map-append}
use native.Mathlib.Omega.{arith}
use text.Mathlib.Text.{◌==◌}
use text.Mathlib.TextEquality.{eq_iff}
use tei_manager.Base.Lists.{length, All, IsDistinct, All-map, All-map_of, IsDistinct-snoc}

abbrev pub Dict {ℓ} : Type ℓ → Type ℓ
Dict V = List (String × V)

module _ {ℓ} {V : Type ℓ} where
  unfoldable pub lookup : String → Dict V → Option V
  lookup k [] = none
  lookup k ((j, v) ∷ d) = if j == k then some v else lookup k d

  unfoldable pub contains_key : String → Dict V → Bool
  unfolding lookup
  contains_key k d = elim (lookup k d) [ none ↦ false | some _ ↦ true ]

  -- A present key keeps its place, and a new one comes last: one of the orders that a `HashMap` may
  -- have from then on.
  unfoldable pub insert : String → V → Dict V → Dict V
  insert k v [] = (k, v) ∷ []
  insert k v ((j, w) ∷ d) = if j == k then (k, v) ∷ d else (j, w) ∷ insert k v d

  unfoldable pub erase : String → Dict V → Dict V
  erase k [] = []
  erase k ((j, w) ∷ d) = if j == k then erase k d else (j, w) ∷ erase k d

  pub lookup-insert :
      (k j : String) (v : V) (d : Dict V)
      → lookup j (insert k v d) ≡ (if k == j then some v else lookup j d)
  unfolding lookup insert
  lookup-insert k j v [] = refl
  lookup-insert k j v ((i, w) ∷ d) =
      ground (arith, eq_iff k j, eq_iff i k, eq_iff i j, lookup-insert k j v d)

  pub lookup-erase :
      (k j : String) (d : Dict V) → lookup j (erase k d) ≡ (if k == j then none else lookup j d)
  unfolding lookup erase
  lookup-erase k j [] = ground arith
  lookup-erase k j ((i, w) ∷ d) =
      ground (arith, eq_iff k j, eq_iff i k, eq_iff i j, lookup-erase k j d)

  pub insert_new :
      (k : String) (v : V) (d : Dict V) → lookup k d ≡ none → insert k v d ≡ d ++ (k, v) ∷ []
  unfolding lookup insert
  insert_new k v [] h = refl
  insert_new k v ((j, w) ∷ d) h = ground (arith, insert_new k v d)

  pub length-insert_new :
      (k : String) (v : V) (d : Dict V) → lookup k d ≡ none → length (insert k v d) ≡ length d + 1
  unfolding lookup insert
  length-insert_new k v [] h = omega arith
  length-insert_new k v ((j, w) ∷ d) h = ground (arith, length-insert_new k v d)

  pub length-erase : (k : String) (d : Dict V) → length (erase k d) ≤ length d
  unfolding erase
  length-erase k [] = omega arith
  length-erase k ((j, w) ∷ d) = ground (arith, length-erase k d)

  pub lookup-none-All : (k : String) (d : Dict V) → lookup k d ≡ none → All (λ e. e.0 ≢ k) d
  unfolding lookup
  lookup-none-All k [] h = tt
  lookup-none-All k ((j, v) ∷ d) h = ground (arith, eq_iff j k, lookup-none-All k d)

  pub lookup-none_of_All : (k : String) (d : Dict V) → All (λ e. e.0 ≢ k) d → lookup k d ≡ none
  unfolding lookup
  lookup-none_of_All k [] h = refl
  lookup-none_of_All k ((j, v) ∷ d) h = ground (arith, eq_iff j k, lookup-none_of_All k d h.1)

  pub All-lookup {κ} :
      (P : String × V → Type κ) (k : String) (d : Dict V) (v : V)
      → All P d
      → lookup k d ≡ some v
      → P (k, v)
  unfolding lookup
  All-lookup P k [] v h e = cc
  All-lookup P k ((j, w) ∷ d) v h e = elim (Bool-cases (j == k)) [
    | inl same ↦
        let value : w ≡ v = ground arith in
        let entry : ◌≡◌ {A = String × V} (j, w) (k, v) = λ i. ((eq_iff j k).0 same i, value i) in
        subst P entry h.0
    | inr apart ↦ All-lookup P k d v h.1 (rw apart at e)
  ]

  pub All-erase {κ} :
      (P : String × V → Type κ) (k : String) (d : Dict V) → All P d → All P (erase k d)
  unfolding erase
  All-erase P k [] h = tt
  All-erase P k ((j, w) ∷ d) h = elim (Bool-cases (j == k)) [
    | inl same ↦ rw same (All-erase P k d h.1)
    | inr apart ↦ rw apart (h.0, All-erase P k d h.1)
  ]

module _ {ℓ κ} {V : Type ℓ} {B : Type κ} where
  pub IsDistinct-erase :
      (f : String × V → B) (k : String) (d : Dict V)
      → IsDistinct (map f d)
      → IsDistinct (map f (erase k d))
  unfolding erase
  IsDistinct-erase f k [] h = tt
  IsDistinct-erase f k ((j, w) ∷ d) h = elim (Bool-cases (j == k)) [
    | inl same ↦ rw same (IsDistinct-erase f k d h.1)
    | inr apart ↦ rw apart (
      All-map f _ (erase k d) (All-erase _ k d (All-map_of f _ d h.0)),
      IsDistinct-erase f k d h.1,
    )
  ]

  -- A new entry whose image is new.
  pub IsDistinct-insert_new :
      (f : String × V → B) (k : String) (v : V) (d : Dict V)
      → lookup k d ≡ none
      → IsDistinct (map f d)
      → All (λ e. f e ≢ f (k, v)) d
      → IsDistinct (map f (insert k v d))
  IsDistinct-insert_new f k v d new h apart =
      rw (insert_new k v d new, map-append)
        (IsDistinct-snoc (map f d) (f (k, v)) h (All-map f _ d apart))
