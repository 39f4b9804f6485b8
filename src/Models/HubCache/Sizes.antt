-- ===== src/Models/HubCache/Sizes.antt =====
-- `dir_size` and `get_cache_size` of src/models/cache.rs. The recursion of `dir_size` is on fuel.
use tei_manager.Base.{
  ℕ, zero, suc, ◌+◌, ◌%◌, ◌^◌, ◌<◌, ◌≡◌, inl, inr, refl, Bool, true, false, Option, none, some,
  List, [], ◌∷◌, arith, Listed, unwrap_or, if◌then◌else◌, String, Result,
}
use tei_manager.Models.HubCache.{Text, Disk, path_join, readable, model_dir}

module _ (disk : Disk) where
  -- What one entry adds, if the recursion for a directory ends.
  unfoldable pub entry_size : (Text → Option ℕ) → Text → Option ℕ
  entry_size sub path =
      if disk.is_dir path then sub path else some (unwrap_or (disk.file_len path) 0)

  -- The loop over the entries.
  unfoldable pub sum_entries : (Text → Option ℕ) → Text → ℕ → List Text → Option ℕ
  sum_entries sub dir size [] = some size
  sum_entries sub dir size (name ∷ names) = elim (entry_size sub (path_join dir name)) [
    | none ↦ none
    | some added ↦ sum_entries sub dir ((size + added) % 2 ^ 64) names
  ]

  abbrev read_size : (Text → Option ℕ) → Text → Option (List (Result String Text)) → Option ℕ
  read_size sub path none = some 0
  read_size sub path (some entries) = sum_entries sub path 0 (readable entries)

  -- `none` where the recursion is deeper than `fuel`.
  unfoldable pub dir_size : ℕ → Text → Option ℕ
  dir_size zero path = none
  dir_size (suc fuel) path = read_size (dir_size fuel) path (disk.read_dir path)

  -- A model that is not there has no size.
  unfoldable pub get_cache_size : ℕ → Text → Text → Option ℕ
  get_cache_size fuel cache_dir model_id =
      let dir = model_dir disk cache_dir model_id in
      if disk.exists dir then dir_size fuel dir else none

  -- No directory is below itself: each directory in a directory has a smaller number.
  unfoldable pub NoLoops : (Text → ℕ) → Type 0
  NoLoops rank =
      (dir name : Text) (entries : List (Result String Text))
      → disk.read_dir dir ≡ some entries
      → Listed name (readable entries)
      → disk.is_dir (path_join dir name) ≡ true
      → rank (path_join dir name) < rank dir

  -- Two ways to measure the directories in a directory agree, and end.
  Agree : (Text → Option ℕ) → (Text → Option ℕ) → Text → List Text → Type 0
  Agree f g dir names =
      (name : Text)
      → Listed name names
      → disk.is_dir (path_join dir name) ≡ true
      → (n : ℕ) × (f (path_join dir name) ≡ some n) × (g (path_join dir name) ≡ some n)

  entry_size-same :
      (f g : Text → Option ℕ) (dir name : Text)
      → (disk.is_dir (path_join dir name) ≡ true
          → (n : ℕ) × (f (path_join dir name) ≡ some n) × (g (path_join dir name) ≡ some n))
      → (n : ℕ) × (entry_size f (path_join dir name) ≡ some n)
        × (entry_size g (path_join dir name) ≡ some n)
  unfolding entry_size
  entry_size-same f g dir name h = by_kind (disk.is_dir (path_join dir name)) refl
    where
      by_kind :
          (b : Bool)
          → disk.is_dir (path_join dir name) ≡ b
          → (n : ℕ) × (entry_size f (path_join dir name) ≡ some n)
            × (entry_size g (path_join dir name) ≡ some n)
      by_kind true k = let (n, a, b) = h k in (n, ground (arith, k, a), ground (arith, k, b))
      by_kind false k =
          (unwrap_or (disk.file_len (path_join dir name)) 0, ground (arith, k), ground (arith, k))

  sum_entries-same :
      (f g : Text → Option ℕ) (dir : Text) (size : ℕ) (names : List Text)
      → Agree f g dir names
      → (n : ℕ) × (sum_entries f dir size names ≡ some n) × (sum_entries g dir size names ≡ some n)
  unfolding sum_entries Agree
  sum_entries-same f g dir size [] h = (size, refl, refl)
  sum_entries-same f g dir size (name ∷ names) h =
      let (added, a, b) = entry_size-same f g dir name (h name (inl refl)) in
      let (n, c, d) =
        sum_entries-same f g dir ((size + added) % 2 ^ 64) names (λ other k. h other (inr k)) in
      (n, ground (arith, a, c), ground (arith, b, d))

  dir_size-same :
      (rank : Text → ℕ)
      → NoLoops rank
      → (fuel fuel' : ℕ) (path : Text) → rank path < fuel
      → rank path < fuel'
      → (n : ℕ) × (dir_size fuel path ≡ some n) × (dir_size fuel' path ≡ some n)
  unfolding dir_size NoLoops Agree
  dir_size-same rank loops zero fuel' path h k = absurd (omega arith)
  dir_size-same rank loops (suc fuel) zero path h k = absurd (omega arith)
  dir_size-same rank loops (suc fuel) (suc fuel') path h k =
      read (λ below l m. dir_size-same rank loops fuel fuel' below l m) (disk.read_dir path) refl
    where
      read :
          ((below : Text)
            → rank below < fuel
            → rank below < fuel'
            → (n : ℕ) × (dir_size fuel below ≡ some n) × (dir_size fuel' below ≡ some n))
          → (r : Option (List (Result String Text))) → disk.read_dir path ≡ r
          → (n : ℕ) × (read_size (dir_size fuel) path r ≡ some n)
            × (read_size (dir_size fuel') path r ≡ some n)
      read again none r = (0, refl, refl)
      read again (some entries) r =
          sum_entries-same (dir_size fuel) (dir_size fuel') path 0 (readable entries)
            λ name listed is.
              let smaller = loops path name entries r listed is in
              again (path_join path name) (omega arith) (omega arith)

  -- If no directory is below itself, as a number for each directory shows that shrinks on the way
  -- down, then `dir_size` ends with a size, the same for every amount of fuel above that number.
  pub dir_size_ends :
      (rank : Text → ℕ)
      → NoLoops rank
      → (path : Text) → (n : ℕ) × ((fuel : ℕ) → rank path < fuel → dir_size fuel path ≡ some n)
  dir_size_ends rank loops path =
      let start = suc (rank path) in
      let (n, ends, again) =
        dir_size-same rank loops start start path (omega arith) (omega arith) in
      (
        n,
        λ fuel h.
            let (m, a, b) = dir_size-same rank loops start fuel path (omega arith) h in
            ground (arith, a, b, ends),
      )
