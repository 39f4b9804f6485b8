-- ===== src/Multiplexer/Arrow/Layout.antt =====
-- Arrow's layout of lists in a column, for the arrays that src/grpc/multiplexer.rs builds: what the
-- rows of an array are, read from its flat values.
use tei_manager.Base.{
  ℕ, zero, suc, ◌+◌, ◌-◌, ◌*◌, ◌^◌, ◌≤◌, ◌<◌, ◌≡◌, refl, sym, subst, ap, none, some, List, [], ◌∷◌,
  ◌++◌, map, arith, ok, length, length-append, drop, take, drop-append, take-append, flatten, All,
}
use mathlib.Core.List.{append_assoc, append-nil}
use tei_manager.Multiplexer.Arrow.{
  u32_of, collect, collect_sparse, repeat, scan_lengths, offsets, SparseValue, pair_of,
}

-- The rows that a list of offsets cuts out.
abbrev pub cut_rows {ℓ} : {A : Type ℓ} → List ℕ → List A → List (List A)
cut_rows [] values = []
cut_rows (start ∷ []) values = []
cut_rows (start ∷ (end ∷ ends)) values =
    take (end - start) (drop start values) ∷ cut_rows (end ∷ ends) values

-- Offsets that never go back, and stay below a bound.
abbrev pub IsMonotone : ℕ → ℕ → List ℕ → Type 0
IsMonotone low bound [] = Unit
IsMonotone low bound (o ∷ os) = (low ≤ o) × (o ≤ bound) × IsMonotone o bound os

module _ {F : Type 0} where
  -- The first `count` rows of a list of fixed size.
  abbrev pub fixed_rows : ℕ → ℕ → List F → List (List F)
  fixed_rows zero size values = []
  fixed_rows (suc count) size values = take size values ∷ fixed_rows count size (drop size values)

  abbrev pub AllOfLength : ℕ → List (List F) → Type 0
  AllOfLength size xss = All (λ xs. length xs ≡ size) xss

  pub length-flatten :
      (size : ℕ) (xss : List (List F))
      → AllOfLength size xss
      → length (flatten xss) ≡ length xss * size
  length-flatten size [] h = omega arith
  length-flatten size (xs ∷ xss) h =
      let e : length (xs ++ flatten xss) ≡ length xs + length (flatten xss) =
        length-append xs (flatten xss) in
      let ih = length-flatten size xss h.1 in
      let d : suc (length xss) * size ≡ size + length xss * size = omega arith in
      omega (arith, e, ih, h.0, d)

  pub fixed_rows-flatten :
      (size : ℕ) (xss : List (List F))
      → AllOfLength size xss
      → fixed_rows (length xss) size (flatten xss) ≡ xss
  fixed_rows-flatten size [] h = refl
  fixed_rows-flatten size (xs ∷ xss) h =
      subst
        (λ n.
          take n (xs ++ flatten xss) ∷ fixed_rows (length xss) size (drop n (xs ++ flatten xss))
          ≡ xs ∷ xss)
        h.0
        (rw
          (
            take-append xs (flatten xss),
            drop-append xs (flatten xss),
            fixed_rows-flatten size xss h.1,
          )
          refl)

  scan_lengths-IsMonotone :
      (acc bound : ℕ) (rows : List (List (ℕ × F)))
      → acc + length (flatten rows) ≤ bound
      → bound < 2 ^ 31
      → IsMonotone acc bound (scan_lengths acc rows)
  unfolding scan_lengths
  scan_lengths-IsMonotone acc bound [] h k = tt
  scan_lengths-IsMonotone acc bound (row ∷ rows) h k =
      let e : length (row ++ flatten rows) ≡ length row + length (flatten rows) =
        length-append row (flatten rows) in
      let fits : u32_of (acc + u32_of (length row)) ≡ acc + length row = ground arith in
      rw (fits) (
        omega arith,
        omega arith,
        scan_lengths-IsMonotone (acc + length row) bound rows (omega arith) k,
      )

  scan_lengths-cons :
      (acc : ℕ) (row : List (ℕ × F)) (rows : List (List (ℕ × F)))
      → acc + length row < 2 ^ 31
      → scan_lengths acc (row ∷ rows) ≡ (acc + length row) ∷ scan_lengths (acc + length row) rows
  unfolding scan_lengths
  scan_lengths-cons acc row rows h =
      let fits : u32_of (acc + u32_of (length row)) ≡ acc + length row = ground arith in
      ap (λ n. n ∷ scan_lengths n rows) fits

  cut_rows-row :
      (start : ℕ) (before row : List (ℕ × F)) (rows : List (List (ℕ × F)))
      → length before ≡ start
      → start + length (row ++ flatten rows) < 2 ^ 31
      → cut_rows
          ((start + length row) ∷ scan_lengths (start + length row) rows)
          ((before ++ row) ++ flatten rows)
        ≡ rows
      → cut_rows (start ∷ scan_lengths start (row ∷ rows)) (before ++ (row ++ flatten rows))
        ≡ row ∷ rows
  cut_rows-row start before row rows s h ih =
      let e : length (row ++ flatten rows) ≡ length row + length (flatten rows) =
        length-append row (flatten rows) in
      let d : (start + length row) - start ≡ length row = omega arith in
      let dropped : drop start (before ++ (row ++ flatten rows)) ≡ row ++ flatten rows =
        subst (λ n. drop n (before ++ (row ++ flatten rows)) ≡ row ++ flatten rows) s
          (drop-append before _) in
      rw
        (
          scan_lengths-cons start row rows (omega (arith, e, h)),
          dropped,
          d,
          take-append row (flatten rows),
        )
        (ap (λ t. row ∷ t)
          (subst
            (λ v. cut_rows ((start + length row) ∷ scan_lengths (start + length row) rows) v ≡ rows)
            (append_assoc before row (flatten rows)) ih))

  cut_rows-scan_lengths :
      (start : ℕ) (before : List (ℕ × F)) (rows : List (List (ℕ × F)))
      → length before ≡ start
      → start + length (flatten rows) < 2 ^ 31
      → cut_rows (start ∷ scan_lengths start rows) (before ++ flatten rows) ≡ rows
  unfolding scan_lengths
  cut_rows-scan_lengths start before [] s h = refl
  cut_rows-scan_lengths start before (row ∷ rows) s h = cut_rows-row start before row rows s h (
      cut_rows-scan_lengths (start + length row) (before ++ row) rows
        (omega (arith, s, length-append before row))
        (omega (arith, h, length-append row (flatten rows))))

  -- The offsets of the rows cut the rows out again.
  pub cut_rows-offsets :
      (rows : List (List (ℕ × F)))
      → length (flatten rows) < 2 ^ 31
      → cut_rows (offsets rows) (flatten rows) ≡ rows
  unfolding offsets
  cut_rows-offsets rows h = cut_rows-scan_lengths 0 [] rows refl (omega (arith, h))

  pub offsets-IsMonotone :
      (rows : List (List (ℕ × F)))
      → length (flatten rows) < 2 ^ 31
      → IsMonotone 0 (length (flatten rows)) (offsets rows)
  unfolding offsets
  offsets-IsMonotone rows h = (
    omega arith,
    omega arith,
    scan_lengths-IsMonotone 0 (length (flatten rows)) rows (omega arith) h,
  )

  collect-some :
      (size : ℕ) (flat : List F) (xss : List (List F))
      → collect (some size) flat (map ok xss) ≡ ok (some size, flat ++ flatten xss)
  unfolding collect
  collect-some size flat [] = ap (λ t. ok (some size, t)) (sym (append-nil flat))
  collect-some size flat (xs ∷ xss) =
      subst (λ t. collect (some size) (flat ++ xs) (map ok xss) ≡ ok (some size, t))
        (append_assoc flat xs (flatten xss)) (collect-some size (flat ++ xs) xss)

  pub collect-all :
      (xs : List F) (xss : List (List F))
      → length xs < 2 ^ 31
      → collect none [] (map ok (xs ∷ xss)) ≡ ok (some (length xs), flatten (xs ∷ xss))
  unfolding collect
  collect-all xs xss h =
      let fits : u32_of (length xs) ≡ length xs = omega arith in
      subst (λ n. collect (some n) xs (map ok xss) ≡ ok (some (length xs), xs ++ flatten xss))
        (sym fits) (collect-some (length xs) xs xss)

  pub collect_sparse-all :
      (results : List (List (ℕ × F))) (xss : List (List (SparseValue F)))
      → collect_sparse results (map ok xss) ≡ ok (results ++ map (map pair_of) xss)
  unfolding collect_sparse
  collect_sparse-all results [] = ap ok (sym (append-nil results))
  collect_sparse-all results (xs ∷ xss) =
      subst (λ t. collect_sparse (results ++ (map pair_of xs ∷ [])) (map ok xss) ≡ ok t)
        (append_assoc results (map pair_of xs ∷ []) (map (map pair_of) xss))
        (collect_sparse-all (results ++ (map pair_of xs ∷ [])) xss)

  pub length-repeat : (x : F) (n : ℕ) → length (repeat n x) ≡ n
  unfolding repeat
  length-repeat x zero = refl
  length-repeat x (suc n) = ap suc (length-repeat x n)

  repeat-add : (x : F) (m n : ℕ) → repeat (m + n) x ≡ repeat m x ++ repeat n x
  unfolding repeat
  repeat-add x zero n = ground arith
  repeat-add x (suc m) n =
      let e : suc m + n ≡ suc (m + n) = omega arith in rw (e) (ap (λ xs. x ∷ xs) (repeat-add x m n))

  pub fixed_rows-repeat :
      (x : F) (count size : ℕ)
      → fixed_rows count size (repeat (count * size) x) ≡ repeat count (repeat size x)
  unfolding repeat
  fixed_rows-repeat x zero size = refl
  fixed_rows-repeat x (suc count) size =
      let row = repeat size x in
      let rest = repeat (count * size) x in
      let d : suc count * size ≡ size + count * size = ground arith in
      let n : length row ≡ size = length-repeat x size in
      let taken : take size (row ++ rest) ≡ row =
        subst (λ k. take k (row ++ rest) ≡ row) n (take-append row rest) in
      let dropped : drop size (row ++ rest) ≡ rest =
        subst (λ k. drop k (row ++ rest) ≡ rest) n (drop-append row rest) in
      rw (d, repeat-add x size (count * size), taken, dropped, fixed_rows-repeat x count size) refl
