-- ===== src/Base/Lists.antt =====
-- Lists measured by native numbers, and predicates by recursion over a list.
use Prim.Native.Nat.{ℕ, suc, ◌+◌, zero}
use mathlib.Core.Path.{◌≡◌, refl, ap, sym}
use mathlib.Core.Logic.{◌≢◌, ◌↔◌, ◌⊎◌}
use mathlib.Core.List.{List, [], ◌∷◌, ◌++◌, map}
use native.Mathlib.Omega.{arith}

module _ {ℓ} {A : Type ℓ} where
  abbrev pub length : List A → ℕ
  length [] = 0
  length (x ∷ xs) = suc (length xs)

  pub length-append : (xs ys : List A) → length (xs ++ ys) ≡ length xs + length ys
  length-append [] ys = omega arith
  length-append (x ∷ xs) ys = omega (arith, length-append xs ys)

  -- Every entry satisfies `P`.
  abbrev pub All {κ} : (A → Type κ) → List A → Type κ
  All P [] = Unit
  All P (x ∷ xs) = P x × All P xs

  -- No entry is listed twice.
  abbrev pub IsDistinct : List A → Type ℓ
  IsDistinct [] = Unit
  IsDistinct (x ∷ xs) = All (λ y. x ≢ y) xs × IsDistinct xs

  -- No entry of `xs` is in `seen`, or listed twice: a loop that collects what it has seen.
  abbrev pub IsDistinctFrom : List A → List A → Type ℓ
  IsDistinctFrom seen [] = Unit
  IsDistinctFrom seen (x ∷ xs) = All (λ s. x ≢ s) seen × IsDistinctFrom (x ∷ seen) xs

  pub All-mono {κ μ} :
      (P : A → Type κ) (Q : A → Type μ) (xs : List A) → ((x : A) → P x → Q x) → All P xs → All Q xs
  All-mono P Q [] f h = tt
  All-mono P Q (x ∷ xs) f h = (f x h.0, All-mono P Q xs f h.1)

  pub All-append {κ} : (P : A → Type κ) (xs ys : List A) → All P xs → All P ys → All P (xs ++ ys)
  All-append P [] ys hx hy = hy
  All-append P (x ∷ xs) ys hx hy = (hx.0, All-append P xs ys hx.1 hy)

module _ {ℓ κ} {A : Type ℓ} {B : Type κ} where
  pub length-map : (f : A → B) (xs : List A) → length (map f xs) ≡ length xs
  length-map f [] = refl
  length-map f (x ∷ xs) = ap suc (length-map f xs)

module _ {ℓ} {A : Type ℓ} where
  All-ne-swap : (x : A) (seen : List A) → All (λ s. x ≢ s) seen → All (λ s. s ≢ x) seen
  All-ne-swap x [] h = tt
  All-ne-swap x (s ∷ seen) h = (λ e. h.0 (sym e), All-ne-swap x seen h.1)

  All-apart-cons :
      (x : A) (xs seen : List A)
      → All (λ s. x ≢ s) seen
      → All (λ s. All (λ y. s ≢ y) xs) seen
      → All (λ s. All (λ y. s ≢ y) (x ∷ xs)) seen
  All-apart-cons x xs [] h k = tt
  All-apart-cons x xs (s ∷ seen) h k = ((λ e. h.0 (sym e), k.0), All-apart-cons x xs seen h.1 k.1)

  All-apart-head :
      (x : A) (xs seen : List A) → All (λ s. All (λ y. s ≢ y) (x ∷ xs)) seen → All (λ s. x ≢ s) seen
  All-apart-head x xs [] h = tt
  All-apart-head x xs (s ∷ seen) h = (λ e. h.0.0 (sym e), All-apart-head x xs seen h.1)

  All-apart-tail :
      (x : A) (xs seen : List A)
      → All (λ s. All (λ y. s ≢ y) (x ∷ xs)) seen
      → All (λ s. All (λ y. s ≢ y) xs) seen
  All-apart-tail x xs [] h = tt
  All-apart-tail x xs (s ∷ seen) h = (h.0.1, All-apart-tail x xs seen h.1)

  IsDistinctFrom→ :
      (seen xs : List A)
      → IsDistinctFrom seen xs
      → IsDistinct xs × All (λ s. All (λ y. s ≢ y) xs) seen
  IsDistinctFrom→ seen [] h = (tt, all_nil seen)
    where
      all_nil : (ss : List A) → All (λ s. All (λ y. s ≢ y) []) ss
      all_nil [] = tt
      all_nil (s ∷ ss) = (tt, all_nil ss)
  IsDistinctFrom→ seen (x ∷ xs) h =
      let rest = IsDistinctFrom→ (x ∷ seen) xs h.1 in
      ((rest.1.0, rest.0), All-apart-cons x xs seen h.0 rest.1.1)

  →IsDistinctFrom :
      (seen xs : List A)
      → IsDistinct xs
      → All (λ s. All (λ y. s ≢ y) xs) seen
      → IsDistinctFrom seen xs
  →IsDistinctFrom seen [] h k = tt
  →IsDistinctFrom seen (x ∷ xs) h k = (
    All-apart-head x xs seen k,
    →IsDistinctFrom (x ∷ seen) xs h.1 (h.0, All-apart-tail x xs seen k),
  )

  -- The loop from nothing seen finds exactly the duplicates.
  pub IsDistinctFrom-nil : (xs : List A) → IsDistinctFrom [] xs ↔ IsDistinct xs
  IsDistinctFrom-nil xs = (λ h. (IsDistinctFrom→ [] xs h).0, λ h. →IsDistinctFrom [] xs h tt)

  -- A new entry at the end.
  pub IsDistinct-snoc :
      (xs : List A) (x : A) → IsDistinct xs → All (λ y. y ≢ x) xs → IsDistinct (xs ++ x ∷ [])
  IsDistinct-snoc [] x d h = (tt, tt)
  IsDistinct-snoc (y ∷ xs) x d h =
      (All-append (λ z. y ≢ z) xs (x ∷ []) d.0 (h.0, tt), IsDistinct-snoc xs x d.1 h.1)

  All-ne_before : (y : A) (xs ys : List A) (x : A) → All (λ z. y ≢ z) (xs ++ x ∷ ys) → y ≢ x
  All-ne_before y [] ys x h = h.0
  All-ne_before y (z ∷ xs) ys x h = All-ne_before y xs ys x h.1

  -- What stands before an entry differs from it.
  pub IsDistinct-middle : (xs ys : List A) (x : A) → IsDistinct (xs ++ x ∷ ys) → All (λ y. y ≢ x) xs
  IsDistinct-middle [] ys x h = tt
  IsDistinct-middle (y ∷ xs) ys x h = (All-ne_before y xs ys x h.0, IsDistinct-middle xs ys x h.1)

module _ {ℓ κ μ} {A : Type ℓ} {B : Type κ} where
  pub All-map :
      (f : A → B) (P : B → Type μ) (xs : List A) → All (λ x. P (f x)) xs → All P (map f xs)
  All-map f P [] h = tt
  All-map f P (x ∷ xs) h = (h.0, All-map f P xs h.1)

  pub All-map_of :
      (f : A → B) (P : B → Type μ) (xs : List A) → All P (map f xs) → All (λ x. P (f x)) xs
  All-map_of f P [] h = tt
  All-map_of f P (x ∷ xs) h = (h.0, All-map_of f P xs h.1)

module _ {ℓ} {A : Type ℓ} where
  -- `skip` and `take` of an iterator.
  abbrev pub drop : ℕ → List A → List A
  drop zero xs = xs
  drop (suc n) [] = []
  drop (suc n) (x ∷ xs) = drop n xs

  abbrev pub take : ℕ → List A → List A
  take zero xs = []
  take (suc n) [] = []
  take (suc n) (x ∷ xs) = x ∷ take n xs

  pub drop-append : (xs ys : List A) → drop (length xs) (xs ++ ys) ≡ ys
  drop-append [] ys = refl
  drop-append (x ∷ xs) ys = drop-append xs ys

  pub take-append : (xs ys : List A) → take (length xs) (xs ++ ys) ≡ xs
  take-append [] ys = refl
  take-append (x ∷ xs) ys = ap (λ t. x ∷ t) (take-append xs ys)

  -- `flatten`.
  abbrev pub flatten : List (List A) → List A
  flatten [] = []
  flatten (xs ∷ xss) = xs ++ flatten xss

-- The entries of a list.
abbrev pub Listed : {A : Type 0} → A → List A → Type 0
Listed x [] = ⊥
Listed x (y ∷ ys) = (x ≡ y) ⊎ Listed x ys
