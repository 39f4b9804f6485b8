-- ===== src/Models/Metadata.antt =====
-- src/models/metadata.rs: what the manager reads of a model's `config.json`. The parser of JSON is an
-- argument.
use tei_manager.Base.{
  ℕ, ◌+◌, ◌*◌, ◌^◌, ◌≤◌, ◌<◌, ◌≡◌, ◌≢◌, Option, none, some, arith, if◌then◌else◌, ltb, ◌==◌,
  unwrap_or,
}
use native.Mathlib.Nat.{mul-le-mul}
use tei_manager.Base.Text.{codes}
use tei_manager.Models.HubCache.{Text, Disk, path_join}

pub record HfModelMetadata : Type 0 where
  pub model_type : Option Text
  pub hidden_size : Option ℕ
  pub max_position_embeddings : Option ℕ
  pub vocab_size : Option ℕ
  pub num_hidden_layers : Option ℕ
  pub num_attention_heads : Option ℕ

pub record RawConfig : Type 0 where
  pub model_type : Option Text
  pub hidden_size : Option ℕ
  pub max_position_embeddings : Option ℕ
  pub vocab_size : Option ℕ
  pub num_hidden_layers : Option ℕ
  pub num_attention_heads : Option ℕ
  pub d_model : Option ℕ
  pub n_positions : Option ℕ

-- `Option::or`.
abbrev pub or_else : {A : Type 0} → Option A → Option A → Option A
or_else (some a) b = some a
or_else none b = b

abbrev pub metadata_of : RawConfig → HfModelMetadata
metadata_of raw = record {
  model_type = raw.model_type;
  hidden_size = or_else raw.hidden_size raw.d_model;
  max_position_embeddings = or_else raw.max_position_embeddings raw.n_positions;
  vocab_size = raw.vocab_size;
  num_hidden_layers = raw.num_hidden_layers;
  num_attention_heads = raw.num_attention_heads;
}

-- `and_then`, as `?` on an `Option`.
abbrev pub chain : {A B : Type 0} → Option A → (A → Option B) → Option B
chain none f = none
chain (some a) f = f a

unfoldable pub parse_model_config : Disk → (Text → Option RawConfig) → Text → Option HfModelMetadata
parse_model_config disk from_str cache_path =
    let config_path = path_join cache_path (codes "config.json") in
    if disk.exists config_path
    then chain (disk.read_to_string config_path)
        (λ content. chain (from_str content) (λ raw. some (metadata_of raw)))
    else none

-- The outcome of arithmetic on a `u64` in a build that checks it.
pub data Checked (A : Type 0) : Type 0 where
  value : A → Checked A
  overflow : Checked A
  divided_by_zero : Checked A

abbrev pub u64_top : ℕ
u64_top = 2 ^ 64

abbrev checked : ℕ → (ℕ → Checked ℕ) → Checked ℕ
checked n k = if ltb n u64_top then k n else overflow

-- The arithmetic of `estimate_parameters`.
unfoldable pub estimate : ℕ → ℕ → ℕ → ℕ → Checked ℕ
estimate hidden layers vocab heads = checked (vocab * hidden) λ embedding_params.
    checked (layers * 12) λ a. checked (a * hidden) λ b. checked (b * hidden) λ layer_params.
      if heads == 0 then divided_by_zero else checked (embedding_params + layer_params) value

-- `estimate_parameters`.
unfoldable pub estimate_parameters : HfModelMetadata → Option (Checked ℕ)
estimate_parameters metadata = chain metadata.hidden_size λ hidden.
    chain metadata.num_hidden_layers λ layers.
      chain metadata.vocab_size
        λ vocab. some (estimate hidden layers vocab (unwrap_or metadata.num_attention_heads 12))

-- The whole numbers of a model whose sizes are known.
pub record Sized (metadata : HfModelMetadata) (hidden layers vocab : ℕ) : Type 0 where
  pub hidden_known : metadata.hidden_size ≡ some hidden
  pub layers_known : metadata.num_hidden_layers ≡ some layers
  pub vocab_known : metadata.vocab_size ≡ some vocab

-- With a hidden size, layers below 2^19, a vocabulary below 2^32,, and heads that
-- are not known to be 0, the estimate is vocab * hidden + 12 * layers * hidden^2, and no step of it
-- overflows.
pub estimate_parameters_bound :
    (metadata : HfModelMetadata) (hidden layers vocab : ℕ)
    → Sized metadata hidden layers vocab
    → hidden < 2 ^ 19
    → layers < 2 ^ 19
    → vocab < 2 ^ 32
    → metadata.num_attention_heads ≢ some 0
    → estimate_parameters metadata
      ≡ some (Checked.value (vocab * hidden + layers * 12 * hidden * hidden))
unfolding estimate_parameters estimate
estimate_parameters_bound metadata hidden layers vocab s h l v heads =
    let a : vocab * hidden ≤ 2 ^ 32 * 2 ^ 19 =
      mul-le-mul {n₂ = 2 ^ 32} {m₂ = 2 ^ 19} (omega arith) (omega arith) in
    let b : layers * 12 * hidden ≤ 2 ^ 19 * 12 * 2 ^ 19 =
      mul-le-mul {n₂ = 2 ^ 19 * 12} {m₂ = 2 ^ 19} (omega arith) (omega arith) in
    let c : layers * 12 * hidden * hidden ≤ 2 ^ 19 * 12 * 2 ^ 19 * 2 ^ 19 =
      mul-le-mul {m₂ = 2 ^ 19} b (omega arith) in
    ground (arith, s.hidden_known, s.layers_known, s.vocab_known, a, b, c)
