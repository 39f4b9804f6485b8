-- ===== src/Models/Loader/Verdict.antt =====
-- When the smoke test of src/models/loader.rs passes.
use tei_manager.Base.{
  ℕ, ◌≡◌, ◌↔◌, ◌⊎◌, inl, inr, refl, ap, Bool, true, false, Option, none, some, List, [], ◌∷◌, ◌++◌,
  arith, Result, ok, err, All,
}
use tei_manager.Models.HubCache.{Text}
use tei_manager.Models.Loader.{
  LoaderConfig, Failure, Child, LoaderStep, is_started, is_error, other_failure, monitor_output,
  wait_for_ready, smoke_test_args, smoke_test,
}

-- A line that does not decide.
abbrev pub Undecided : Text → Text → Type 0
Undecided model_id line =
    (is_started line ≡ false) × (is_error line ≡ false) × (other_failure model_id line ≡ none)

-- The lines up to the first one that decides say that the server has started.
pub record Starts (model_id : Text) (lines : List Text) : Type 0 where
  pub before : List Text
  pub line : Text
  pub after : List Text
  pub split : lines ≡ before ++ (line ∷ after)
  pub undecided : All (Undecided model_id) before
  pub started : is_started line ≡ true

Starts-cons :
    (model_id line : Text) (rest : List Text)
    → Undecided model_id line
    → Starts model_id rest
    → Starts model_id (line ∷ rest)
Starts-cons model_id line rest u s = record {
  before = line ∷ s.before;
  line = s.line;
  after = s.after;
  split = ap (λ ls. line ∷ ls) s.split;
  undecided = (u, s.undecided);
  started = s.started;
}

monitor_output-Starts :
    (model_id : Text) (lines : List Text)
    → monitor_output model_id lines ≡ ok tt
    → Starts model_id lines
unfolding monitor_output
monitor_output-Starts model_id [] h = absurd (ground (arith, h))
monitor_output-Starts model_id (line ∷ rest) h =
    decide (is_started line) (is_error line) (other_failure model_id line) refl refl refl
      (monitor_output-Starts model_id rest)
  where
    decide :
        (a b : Bool) (c : Option Failure)
        → is_started line ≡ a
        → is_error line ≡ b
        → other_failure model_id line ≡ c
        → (monitor_output model_id rest ≡ ok tt → Starts model_id rest)
        → Starts model_id (line ∷ rest)
    decide true b c i j k later = record {
      before = [];
      line = line;
      after = rest;
      split = refl;
      undecided = tt;
      started = i;
    }
    decide false true c i j k later = absurd (ground (arith, i, j, h))
    decide false false (some e) i j k later = absurd (ground (arith, i, j, k, h))
    decide false false none i j k later =
        Starts-cons model_id line rest (i, j, k) (later (ground (arith, i, j, k, h)))

Undecided-monitor_output :
    (model_id : Text) (before : List Text) (line : Text) (after : List Text)
    → All (Undecided model_id) before
    → is_started line ≡ true
    → monitor_output model_id (before ++ (line ∷ after)) ≡ ok tt
unfolding monitor_output
Undecided-monitor_output model_id [] line after u s = ground (arith, s)
Undecided-monitor_output model_id (b ∷ before) line after u s =
    ground (arith, u.0, Undecided-monitor_output model_id before line after u.1 s)

module _ (config : LoaderConfig) (child : Child) (model_id : Text) where
  wait_for_ready_iff : (wait_for_ready config child model_id ≡ ok tt) ↔ (
      (lines : List Text) × (child.stderr ≡ some lines)
      × (child.too_slow ≡ false)
      × Starts model_id lines)
  unfolding wait_for_ready
  wait_for_ready_iff = (
    λ h. read child.stderr child.too_slow refl refl h,
    λ (lines, e, quick, s). ground (
      arith,
      e,
      quick,
      s.split,
      Undecided-monitor_output model_id s.before s.line s.after s.undecided s.started,
    ),
  )
    where
      read :
          (r : Option (List Text)) (b : Bool)
          → child.stderr ≡ r
          → child.too_slow ≡ b
          → wait_for_ready config child model_id ≡ ok tt
          → (lines : List Text) × (child.stderr ≡ some lines)
            × (child.too_slow ≡ false)
            × Starts model_id lines
      read none b e k h = absurd (ground (arith, e, h))
      read (some lines) true e k h = absurd (ground (arith, e, k, h))
      read (some lines) false e k h =
          (lines, e, k, monitor_output-Starts model_id lines (ground (arith, e, k, h)))

module _ (config : LoaderConfig) (to_string : ℕ → Text)
    (spawn : Text → List Text → Result Text Child) (model_id : Text) where
  abbrev args : List Text
  args = smoke_test_args model_id (to_string config.smoke_test_port)

  -- A smoke test that passes.
  pub record Passed : Type 0 where
    pub child : Child
    pub lines : List Text
    pub spawned : spawn config.tei_binary_path args ≡ ok child
    pub output : child.stderr ≡ some lines
    pub quick : child.too_slow ≡ false
    pub starts : Starts model_id lines

  -- What is spawned is killed.
  abbrev pub Kills : List LoaderStep → Type 0
  Kills steps =
      (steps ≡ [])
      ⊎ (steps ≡ LoaderStep.spawned config.tei_binary_path args ∷ LoaderStep.killed ∷ [])

  -- A smoke test passes exactly if the process can be spawned, its error output can be taken, the wait
  -- is not over too early, and of the lines that decide the first says that a server has started. In
  -- every case the process is spawned and then killed, or not spawned at all.
  pub smoke_test_iff :
      (((smoke_test config to_string spawn model_id).0 ≡ ok tt) ↔ Passed)
      × Kills (smoke_test config to_string spawn model_id).1
  unfolding smoke_test
  smoke_test_iff = run (spawn config.tei_binary_path args) refl
    where
      run :
          (r : Result Text Child)
          → spawn config.tei_binary_path args ≡ r
          → (((smoke_test config to_string spawn model_id).0 ≡ ok tt) ↔ Passed)
            × Kills (smoke_test config to_string spawn model_id).1
      run (err e) k = (
        (λ h. absurd (ground (arith, k, h)), λ p. absurd (ground (arith, k, p.spawned))),
        inl (ground (arith, k)),
      )
      run (ok child) k = (
        (
          λ h.
              let (lines, e, quick, s) =
                (wait_for_ready_iff config child model_id).0 (ground (arith, k, h)) in
              record {
                child = child;
                lines = lines;
                spawned = k;
                output = e;
                quick = quick;
                starts = s;
              },
          λ p.
              let same : p.child ≡ child = ground (arith, k, p.spawned) in
              ground (
                arith,
                k,
                same,
                (wait_for_ready_iff config p.child model_id).1
                    (p.lines, p.output, p.quick, p.starts),
              ),
        ),
        inr (ground (arith, k)),
      )
