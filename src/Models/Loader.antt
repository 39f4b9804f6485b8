-- ===== src/Models/Loader.antt =====
-- src/models/loader.rs: the smoke test of a model. The process is an argument: whether it starts, the
-- lines of its error output, and whether the time is over before they are read.
pub mod Verdict
use tei_manager.Base.{
  ℕ, zero, suc, ◌≡◌, ◌≢◌, ◌↔◌, ◌⊎◌, inl, inr, refl, ap, String, Bool, true, false, ◌||◌, ◌&&◌,
  Option, none, some, List, [], ◌∷◌, ◌++◌, arith, Result, ok, err, map_err, if◌then◌else◌, take,
  All,
}
use tei_manager.Base.Text.{codes, contains}
use tei_manager.Models.HubCache.{Text}

pub record LoaderConfig : Type 0 where
  pub tei_binary_path : Text
  pub smoke_test_port : ℕ
  pub load_timeout_secs : ℕ

abbrev pub default_loader : LoaderConfig
default_loader = record {
  tei_binary_path = codes "text-embeddings-router";
  smoke_test_port = 18080;
  load_timeout_secs = 300;
}

-- Why a smoke test fails; the texts of the formatted messages are their arguments.
pub data Failure : Type 0 where
  spawn_failed : Text → Failure
  no_stderr : Failure
  timed_out : ℕ → Failure
  error_lines : List Text → Failure
  out_of_memory : Text → Failure
  model_not_found : Text → Failure
  invalid_model : Text → Failure
  exited : Failure

abbrev has : String → Text → Bool
has part line = contains (codes part) line

abbrev pub is_started : Text → Bool
is_started line =
    has "Started HTTP server" line
    || has "Starting HTTP server" line
    || has "Starting gRPC server" line

abbrev pub is_error : Text → Bool
is_error line = has "Error" line || has "error:" line || has "CUDA error" line

-- What a line that is neither a start nor an error says.
unfoldable pub other_failure : Text → Text → Option Failure
other_failure model_id line =
    if has "out of memory" line || has "CUDA_OUT_OF_MEMORY" line
    then some (Failure.out_of_memory line)
    else if has "404" line && has "not found" line
    then some (Failure.model_not_found model_id)
    else if has "not a valid" line || has "Unsupported model" line
    then some (Failure.invalid_model line)
    else none

-- `monitor_output`, over the lines that can be read before the output ends or breaks.
unfoldable pub monitor_output : Text → List Text → Result Failure (Unit {0})
monitor_output model_id [] = err Failure.exited
monitor_output model_id (line ∷ rest) =
    let later = monitor_output model_id rest in
    if is_started line
    then ok tt
    else if is_error line
    then err (Failure.error_lines (line ∷ take 5 rest))
    else elim (other_failure model_id line) [ some e ↦ err e | none ↦ later ]

-- A process that was started: its error output, and whether the wait for a verdict is too long.
pub record Child : Type 0 where
  pub stderr : Option (List Text)
  pub too_slow : Bool

-- `wait_for_ready`.
unfoldable pub wait_for_ready : LoaderConfig → Child → Text → Result Failure (Unit {0})
wait_for_ready config child model_id = elim child.stderr [
  | none ↦ err Failure.no_stderr
  | some lines ↦
      if child.too_slow
      then err (Failure.timed_out config.load_timeout_secs)
      else monitor_output model_id lines
]

-- What the loader does to processes.
pub data LoaderStep : Type 0 where
  spawned : Text → List Text → LoaderStep
  killed : LoaderStep

-- The command line of `start_tei_process`; `port` is the port as text.
abbrev pub smoke_test_args : Text → Text → List Text
smoke_test_args model_id port =
    codes "--model-id"
    ∷ model_id
    ∷ codes "--port"
    ∷ port
    ∷ codes "--max-concurrent-requests"
    ∷ codes "1"
    ∷ codes "--max-batch-tokens"
    ∷ codes "256"
    ∷ []

abbrev run_child :
    LoaderConfig
    → Text
    → List LoaderStep
    → Result Text Child
    → Result Failure (Unit {0}) × List LoaderStep
run_child config model_id steps (err e) = (err (Failure.spawn_failed e), steps)
run_child config model_id steps (ok child) =
    (wait_for_ready config child model_id, steps ++ (LoaderStep.killed ∷ []))

-- `smoke_test`, with what it did.
unfoldable pub smoke_test :
    LoaderConfig
    → (ℕ → Text)
    → (Text → List Text → Result Text Child)
    → Text
    → Result Failure (Unit {0}) × List LoaderStep
smoke_test config to_string spawn model_id =
    let args = smoke_test_args model_id (to_string config.smoke_test_port) in
    let r = spawn config.tei_binary_path args in
    run_child config model_id
      (elim r [ err e ↦ [] | ok child ↦ LoaderStep.spawned config.tei_binary_path args ∷ [] ]) r
