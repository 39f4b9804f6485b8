-- ===== src/Api/Logs/Slices.antt =====
-- The slice that `get_logs` of src/api/handlers.rs answers, index by index.
use tei_manager.Base.{
  ℕ, zero, suc, ◌+◌, ◌-◌, ◌≤◌, ◌<◌, ◌≡◌, refl, String, Option, none, some, List, [], ◌∷◌, arith,
  ltb, if◌then◌else◌, length, drop, take,
}
use tei_manager.Api.Logs.{ℤ, pos, negsuc, i32_half, from_end, resolve, select, slice_logs}

abbrev pub get_elem? {ℓ} : {A : Type ℓ} → List A → ℕ → Option A
get_elem? [] i = none
get_elem? (x ∷ xs) zero = some x
get_elem? (x ∷ xs) (suc i) = get_elem? xs i

module _ {ℓ} {A : Type ℓ} where
  get_elem?-drop : (n : ℕ) (xs : List A) (k : ℕ) → get_elem? (drop n xs) k ≡ get_elem? xs (n + k)
  get_elem?-drop zero xs k = ground arith
  get_elem?-drop (suc n) [] k = refl
  get_elem?-drop (suc n) (x ∷ xs) k =
      let e : suc n + k ≡ suc (n + k) = omega arith in rw e (get_elem?-drop n xs k)

  get_elem?-take :
      (n : ℕ) (xs : List A) (k : ℕ)
      → get_elem? (take n xs) k ≡ (if ltb k n then get_elem? xs k else none)
  get_elem?-take zero xs k = ground arith
  get_elem?-take (suc n) [] k = ground arith
  get_elem?-take (suc n) (x ∷ xs) zero = ground arith
  get_elem?-take (suc n) (x ∷ xs) (suc k) = ground (arith, get_elem?-take n xs k)

  length-take : (n : ℕ) (xs : List A) → n ≤ length xs → length (take n xs) ≡ n
  length-take zero xs h = refl
  length-take (suc n) [] h = absurd (omega arith)
  length-take (suc n) (x ∷ xs) h = omega (arith, length-take n xs (omega arith))

  length-drop : (n : ℕ) (xs : List A) → length (drop n xs) ≡ length xs - n
  length-drop zero xs = omega arith
  length-drop (suc n) [] = omega arith
  length-drop (suc n) (x ∷ xs) = omega (arith, length-drop n xs)

-- Where a Python index points in a list of that length.
abbrev pub python_index : ℕ → ℕ → Option ℤ → ℕ
python_index total default none = default
python_index total default (some (pos s)) = if ltb s total then s else total
python_index total default (some (negsuc n)) = total - (n + 1)

resolve-python :
    (total default : ℕ) (s : Option ℤ)
    → total < i32_half
    → resolve total default s ≡ python_index total default s
unfolding resolve from_end
resolve-python total default none h = refl
resolve-python total default (some (pos s)) h = ground arith
resolve-python total default (some (negsuc n)) h = ground arith

python_index-le :
    (total default : ℕ) (s : Option ℤ) → default ≤ total → python_index total default s ≤ total
python_index-le total default none h = h
python_index-le total default (some (pos s)) h = ground arith
python_index-le total default (some (negsuc n)) h = omega arith

module _ (content : List String) (start end : ℕ) where
  length-select : end ≤ length content → length (select content start end) ≡ end - start
  unfolding select
  length-select h =
      ground (arith, length-take (end - start) (drop start content), length-drop start content)

  get_elem?-select :
      (k : ℕ)
      → get_elem? (select content start end) k
        ≡ (if ltb (start + k) end then get_elem? content (start + k) else none)
  unfolding select
  get_elem?-select k =
      ground
        (arith, get_elem?-take (end - start) (drop start content) k, get_elem?-drop start content k)

-- For a log of fewer than 2 ^ 31 lines the answer is the Python slice `content[from:to]`: its bounds
-- are the Python bounds, it has as many lines as lie between them, and its line `k` is the line
-- `start + k` of the log.
pub slice_logs-python :
    (content : List String) (from to : Option ℤ) (k : ℕ)
    → length content < i32_half
    → let out = slice_logs content from to in
      let start = python_index (length content) 0 from in
      let end = python_index (length content) (length content) to in
      (out.start ≡ start)
      × (out.end ≡ end)
      × (out.total_lines ≡ length content)
      × (length out.lines ≡ end - start)
      × (get_elem? out.lines k
          ≡ (if ltb (start + k) end then get_elem? content (start + k) else none))
unfolding slice_logs
slice_logs-python content from to k h =
    let total : ℕ = length content in
    rw (resolve-python total 0 from h, resolve-python total total to h)
      (
        refl,
        refl,
        refl,
        length-select content (python_index total 0 from) (python_index total total to)
            (python_index-le total total to (omega arith)),
        get_elem?-select content (python_index total 0 from) (python_index total total to) k,
      )
