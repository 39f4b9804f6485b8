-- ===== src/Base/Reorder.antt =====
-- Lists and dictionaries in another order.
use mathlib.Core.Path.{◌≡◌, refl, sym, subst, ap, ◌∙◌}
use mathlib.Core.Logic.{◌≢◌}
use mathlib.Core.List.{List, [], ◌∷◌, map, Permᴰ}
use native.Mathlib.Omega.{arith}
use Prim.Native.Nat.{suc}
use Prim.Native.String.{String}
use text.Mathlib.TextEquality.{eq_iff}
use tei_manager.Base.Lists.{length, All, IsDistinct}
use tei_manager.Base.Dict.{Dict, lookup}

module _ {ℓ} {A : Type ℓ} where
  pub perm_refl : (xs : List A) → Permᴰ xs xs
  perm_refl [] = Permᴰ.nil
  perm_refl (x ∷ xs) = Permᴰ.cons refl (perm_refl xs)

  pub All-perm {κ} : (P : A → Type κ) {xs ys : List A} → Permᴰ xs ys → All P xs → All P ys
  All-perm P Permᴰ.nil h = tt
  All-perm P (Permᴰ.cons e p) h = (subst P e h.0, All-perm P p h.1)
  All-perm P (Permᴰ.swap e f) h = (subst P f h.1.0, (subst P e h.0, h.1.1))
  All-perm P (Permᴰ.trans p q) h = All-perm P q (All-perm P p h)

  pub IsDistinct-perm : {xs ys : List A} → Permᴰ xs ys → IsDistinct xs → IsDistinct ys
  IsDistinct-perm Permᴰ.nil h = tt
  IsDistinct-perm (Permᴰ.cons {l₂ = ys} e p) h =
      (subst (λ x. All (λ y. x ≢ y) ys) e (All-perm _ p h.0), IsDistinct-perm p h.1)
  IsDistinct-perm (Permᴰ.swap {l = xs} e f) h = (
    (λ same. h.0.0 (e ∙ sym same ∙ sym f), subst (λ x. All (λ y. x ≢ y) xs) f h.1.0),
    (subst (λ x. All (λ y. x ≢ y) xs) e h.0.1, h.1.1),
  )
  IsDistinct-perm (Permᴰ.trans p q) h = IsDistinct-perm q (IsDistinct-perm p h)

  pub length-perm : {xs ys : List A} → Permᴰ xs ys → length ys ≡ length xs
  length-perm Permᴰ.nil = refl
  length-perm (Permᴰ.cons e p) = ap suc (length-perm p)
  length-perm (Permᴰ.swap e f) = refl
  length-perm (Permᴰ.trans p q) = length-perm q ∙ length-perm p

module _ {ℓ κ} {A : Type ℓ} {B : Type κ} where
  pub map-perm : (f : A → B) {xs ys : List A} → Permᴰ xs ys → Permᴰ (map f xs) (map f ys)
  map-perm f Permᴰ.nil = Permᴰ.nil
  map-perm f (Permᴰ.cons e p) = Permᴰ.cons (ap f e) (map-perm f p)
  map-perm f (Permᴰ.swap e g) = Permᴰ.swap (ap f e) (ap f g)
  map-perm f (Permᴰ.trans p q) = Permᴰ.trans (map-perm f p) (map-perm f q)

module _ {ℓ} {V : Type ℓ} (k : String) where
  lookup-cons :
      (e : String × V) (d d' : Dict V)
      → lookup k d ≡ lookup k d'
      → lookup k (e ∷ d) ≡ lookup k (e ∷ d')
  unfolding lookup
  lookup-cons (j, v) d d' h = ground (arith, h)

  lookup-swap :
      (a b : String × V) (d : Dict V) → a.0 ≢ b.0 → lookup k (a ∷ b ∷ d) ≡ lookup k (b ∷ a ∷ d)
  unfolding lookup
  lookup-swap (i, v) (j, w) d apart = ground (arith, apart, eq_iff i k, eq_iff j k)

  -- Where no key stands twice, a dictionary answers the same in every order.
  pub lookup-perm :
      {d d' : Dict V} → Permᴰ d d' → IsDistinct (map (λ e. e.0) d) → lookup k d ≡ lookup k d'
  lookup-perm Permᴰ.nil h = refl
  lookup-perm (Permᴰ.cons {a = a} {l₁ = d} {l₂ = d'} e p) h =
      subst (λ x. lookup k (a ∷ d) ≡ lookup k (x ∷ d')) e (lookup-cons a d d' (lookup-perm p h.1))
  lookup-perm (Permᴰ.swap {a = a} {b = b} {b' = b'} {l = d} e f) h =
      subst (λ x. lookup k (a ∷ b ∷ d) ≡ lookup k (x ∷ b' ∷ d)) f
        (subst (λ x. lookup k (a ∷ b ∷ d) ≡ lookup k (b ∷ x ∷ d)) e (lookup-swap a b d h.0.0))
  lookup-perm (Permᴰ.trans p q) h =
      lookup-perm p h ∙ lookup-perm q (IsDistinct-perm (map-perm (λ e. e.0) p) h)
