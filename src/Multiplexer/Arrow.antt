-- ===== src/Multiplexer/Arrow.antt =====
-- `embed_arrow` and `embed_sparse_arrow` of src/grpc/multiplexer.rs. The arrow library is an argument;
-- floats are a type of which only the constants of the code are known.
pub mod Layout
pub mod Batches
pub mod RoundTrips
mod Tests
use tei_manager.Base.{
  ℕ, zero, suc, ◌+◌, ◌*◌, ◌%◌, ◌^◌, String, Bool, true, false, Option, none, some, List, [], ◌∷◌,
  ◌++◌, map, Result, ok, err, map_err, and_then, length, flatten, unwrap_or,
}
use tei_manager.Pool.{BackendPool, BackendClients, Channel, Status, clients_of}
use tei_manager.Multiplexer.{Target, Context, Reply, replied, panicked, extract_target, clients_for}

-- The bits of a 32-bit integer that a `usize` or a sum is cut to.
abbrev pub u32_of : ℕ → ℕ
u32_of n = n % 2 ^ 32

pub data Column : Type 0 where
  texts : List (Option String) → Column
  other_type : Column

-- What the code calls of the arrow library. `none` stands for a panic of a constructor.
pub record ArrowLib (Bytes F : Type 0) : Type 1 where
  pub Array : Type 0
  pub Batch : Type 0
  pub Options : Type 0
  pub Writer : Type 0
  pub read : Bytes → Result String (List (Result String (List Column)))
  pub fixed_size_list : ℕ → List F → Option Array
  pub list_of_structs : List ℕ → List (ℕ × F) → Option Array
  pub new_batch : Array → Result String Batch
  pub compression : Result String Options
  pub new_writer : Options → Batch → Result String Writer
  pub write : Writer → Batch → Result String Writer
  pub finish : Writer → Result String Bytes

-- The messages to and from the backend.
pub record EmbedRequest : Type 0 where
  pub inputs : String
  pub truncate : Bool
  pub normalize : Option Bool
  pub truncation_direction : ℕ
  pub prompt_name : Option String
  pub dimensions : Option ℕ

pub record EmbedSparseRequest : Type 0 where
  pub inputs : String
  pub truncate : Bool
  pub truncation_direction : ℕ
  pub prompt_name : Option String

pub record SparseValue (F : Type 0) : Type 0 where
  pub index : ℕ
  pub value : F

-- `EmbedArrowRequest`, and without `normalize` `EmbedSparseArrowRequest`.
pub record ArrowRequest (Bytes : Type 0) : Type 0 where
  pub target : Option Target
  pub arrow_ipc : Bytes
  pub truncate : Bool
  pub normalize : Bool
  pub noop : Bool

-- A handler: a reply, and the pool that it leaves.
abbrev pub Handler : Type 0 → Type 0
Handler A = BackendPool → Reply A × BackendPool

abbrev pub give : {A : Type 0} → Reply A → Handler A
give r pool = (r, pool)

infixl 5 ◌>>=◌
abbrev pub ◌>>=◌ : {A B : Type 0} → Handler A → (A → Handler B) → Handler B
◌>>=◌ m f pool =
    let (r, pool') = m pool in
    elim r [
      | replied result ↦ elim result [ ok a ↦ f a pool' | err e ↦ (replied (err e), pool') ]
      | panicked ↦ (panicked, pool')
    ]

abbrev pub clients_of_instance : Context → String → Handler BackendClients
clients_of_instance ctx name pool = let (r, pool') = clients_for ctx name pool in (replied r, pool')

-- `column(0)` and its cast, which panics without a column.
unfoldable pub first_column : List Column → Reply (List (Option String))
first_column [] = panicked
first_column (Column.texts column ∷ _) = replied (ok column)
first_column (Column.other_type ∷ _) =
    replied (err (Status.invalid_argument "First column must be StringArray"))

-- The first batch of a stream.
unfoldable pub read_texts :
    Result String (List (Result String (List Column))) → Reply (List (Option String))
read_texts (err e) = replied (err (Status.invalid_format "Invalid Arrow IPC: {}" e))
read_texts (ok []) = replied (err (Status.invalid_argument "No RecordBatch in stream"))
read_texts (ok (err e ∷ _)) =
    replied (err (Status.invalid_format "Failed to read RecordBatch: {}" e))
read_texts (ok (ok columns ∷ _)) = first_column columns

-- The rows that are not null.
unfoldable pub present : List (Option String) → List String
present [] = []
present (none ∷ rows) = present rows
present (some text ∷ rows) = text ∷ present rows

-- A request per row that is not null.
abbrev pub embed_request : Bool → Bool → String → EmbedRequest
embed_request truncate normalize text = record {
  inputs = text;
  truncate = truncate;
  normalize = some normalize;
  truncation_direction = 0;
  prompt_name = none;
  dimensions = none;
}

abbrev pub sparse_request : Bool → String → EmbedSparseRequest
sparse_request truncate text = record {
  inputs = text;
  truncate = truncate;
  truncation_direction = 0;
  prompt_name = none;
}

module _ {F : Type 0} where
  -- The loop over the responses: the first one's length, and all floats. The
  -- space that the source reserves for them in advance has no counterpart.
  unfoldable pub collect :
      Option ℕ → List F → List (Result String (List F)) → Result Status (Option ℕ × List F)
  collect emb_len flat [] = ok (emb_len, flat)
  collect emb_len flat (err e ∷ _) = err (Status.internal "Stream response error: {}" e)
  collect emb_len flat (ok embeddings ∷ rest) =
      collect (some (unwrap_or emb_len (u32_of (length embeddings)))) (flat ++ embeddings) rest

  abbrev pub pair_of : SparseValue F → ℕ × F
  pair_of sv = (sv.index, sv.value)

  -- The same for sparse embeddings.
  unfoldable pub collect_sparse :
      List (List (ℕ × F))
      → List (Result String (List (SparseValue F)))
      → Result Status (List (List (ℕ × F)))
  collect_sparse results [] = ok results
  collect_sparse results (err e ∷ _) = err (Status.internal "Stream response error: {}" e)
  collect_sparse results (ok values ∷ rest) =
      collect_sparse (results ++ (map pair_of values ∷ [])) rest

  unfoldable pub repeat : ℕ → F → List F
  repeat zero x = []
  repeat (suc n) x = x ∷ repeat n x

  -- The dummy rows of `noop`, from row `i` on.
  unfoldable pub noop_rows : F → F → F → ℕ → ℕ → List (List (ℕ × F))
  noop_rows one half quarter i zero = []
  noop_rows one half quarter i (suc n) =
      ((u32_of i, one) ∷ (u32_of (u32_of i + 100), half) ∷ (u32_of (u32_of i + 200), quarter) ∷ [])
      ∷ noop_rows one half quarter (suc i) n

  -- The running totals of the lengths, in an `i32`, as a release build adds them up.
  unfoldable pub scan_lengths : ℕ → List (List (ℕ × F)) → List ℕ
  scan_lengths acc [] = []
  scan_lengths acc (sparse ∷ rest) =
      let acc' = u32_of (acc + u32_of (length sparse)) in acc' ∷ scan_lengths acc' rest

  unfoldable pub offsets : List (List (ℕ × F)) → List ℕ
  offsets embeddings = 0 ∷ scan_lengths 0 embeddings
