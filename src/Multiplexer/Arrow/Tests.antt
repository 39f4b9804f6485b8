-- ===== src/Multiplexer/Arrow/Tests.antt =====
-- Theorems about the Arrow handlers of src/grpc/multiplexer.rs at concrete inputs, with a toy library
-- whose arrays are lists of rows and whose bytes are arrays.
use tei_manager.Base.{
  ℕ, zero, suc, ◌*◌, ◌<◌, ◌≡◌, refl, String, Bool, true, false, Option, none, some, List, [], ◌∷◌,
  map, arith, Result, ok, err, length, ◌/◌,
}
use native.Mathlib.Nat.{mul-div_cancel}
use tei_manager.Pool.{Channel}
use tei_manager.Multiplexer.{replied}
use tei_manager.Multiplexer.Tests.{ctx, clients, used, connected, to_a, a_named}
use tei_manager.Multiplexer.Arrow.{
  ArrowLib, ArrowRequest, Column, EmbedRequest, EmbedSparseRequest, SparseValue, present,
}
use tei_manager.Multiplexer.Arrow.Layout.{fixed_rows, cut_rows}
use tei_manager.Multiplexer.Arrow.Batches.{embed_arrow, embed_sparse_arrow, write_batch}
use tei_manager.Multiplexer.Arrow.RoundTrips.{ArrowLaws, embed_arrow-rows, embed_sparse_arrow-rows}
use tei_manager.Pool.Tests.{one_connection}

data ToyArray : Type 0 where
  ipc : List (Option String) → ToyArray
  fixed : ℕ → List ℕ → ToyArray
  structs : List ℕ → List (ℕ × ℕ) → ToyArray

abbrev toy_read : ToyArray → Result String (List (Result String (List Column)))
toy_read (ipc rows) = ok (ok (Column.texts rows ∷ []) ∷ [])
toy_read (fixed size values) = err "not a batch of texts"
toy_read (structs ends values) = err "not a batch of texts"

abbrev toy_lib : ArrowLib ToyArray ℕ
toy_lib = record {
  Array = ToyArray;
  Batch = ToyArray;
  Options = Unit;
  Writer = ToyArray;
  read = toy_read;
  fixed_size_list = λ size values. some (fixed size values);
  list_of_structs = λ ends values. some (structs ends values);
  new_batch = λ array. ok array;
  compression = ok tt;
  new_writer = λ options batch. ok batch;
  write = λ writer batch. ok batch;
  finish = λ writer. ok writer;
}

abbrev toy_count : ℕ → List ℕ → ℕ
toy_count zero values = 0
toy_count (suc size) values = length values / suc size

abbrev toy_rows : ToyArray → List (List ℕ)
toy_rows (ipc rows) = []
toy_rows (fixed size values) = fixed_rows (toy_count size values) size values
toy_rows (structs ends values) = []

abbrev toy_structs : ToyArray → List (List (ℕ × ℕ))
toy_structs (ipc rows) = []
toy_structs (fixed size values) = []
toy_structs (structs ends values) = cut_rows ends values

toy_layout :
    (size count : ℕ) (values : List ℕ)
    → 0 < size
    → length values ≡ count * size
    → toy_rows (fixed size values) ≡ fixed_rows count size values
toy_layout zero count values h e = absurd (omega arith)
toy_layout (suc size) count values h e =
    let d : length values / suc size ≡ count = rw (e) (mul-div_cancel count h) in rw (d) refl

abbrev toy_laws : ArrowLaws toy_lib
toy_laws = record {
  rows_of = toy_rows;
  structs_of = toy_structs;
  fixed_size_layout =
      λ size count values h small e. (fixed size values, refl, toy_layout size count values h e);
  struct_layout = λ ends values h small. (structs (0 ∷ ends) values, refl, refl);
}

abbrev req : Bool → ArrowRequest ToyArray
req noop = record {
  target = to_a;
  arrow_ipc = ipc (some "x" ∷ none ∷ some "y" ∷ []);
  truncate = true;
  normalize = false;
  noop = noop;
}

abbrev rows : List (Option String)
rows = some "x" ∷ none ∷ some "y" ∷ []

abbrev toy_embed : Channel → List EmbedRequest → Result String (List (Result String (List ℕ)))
toy_embed c reqs = ok (map (λ r. ok (1 ∷ 2 ∷ [])) reqs)

-- Two rows for three texts.
embed_arrow-rows_example :
    (array : ToyArray) × (embed_arrow toy_lib ctx 0 toy_embed (req false) one_connection
      ≡ (replied (write_batch toy_lib array), used))
    × (toy_rows array ≡ (1 ∷ 2 ∷ []) ∷ (1 ∷ 2 ∷ []) ∷ [])
unfolding present
embed_arrow-rows_example =
    embed_arrow-rows toy_lib toy_laws ctx (req false) "a" rows [] [] one_connection a_named refl 0
      toy_embed clients used 2 (1 ∷ 2 ∷ []) ((1 ∷ 2 ∷ []) ∷ []) refl connected refl
      (refl, (refl, tt)) (omega arith) (omega arith)

abbrev toy_sparse :
    Channel → List EmbedSparseRequest → Result String (List (Result String (List (SparseValue ℕ))))
toy_sparse c reqs = ok (
    ok (record { index = 3; value = 9 } ∷ record { index = 5; value = 8 } ∷ [])
    ∷ ok (record { index = 4; value = 7 } ∷ [])
    ∷ [])

embed_sparse_arrow-rows_example :
    (array : ToyArray) × (embed_sparse_arrow toy_lib ctx 4 2 1 toy_sparse (req false) one_connection
      ≡ (replied (write_batch toy_lib array), used))
    × (toy_structs array ≡ ((3, 9) ∷ (5, 8) ∷ []) ∷ ((4, 7) ∷ []) ∷ [])
embed_sparse_arrow-rows_example =
    embed_sparse_arrow-rows toy_lib toy_laws ctx (req false) "a" rows [] [] one_connection a_named
      refl 4 2 1 toy_sparse clients used
      ((record { index = 3; value = 9 } ∷ record { index = 5; value = 8 } ∷ [])
        ∷ (record { index = 4; value = 7 } ∷ [])
        ∷ [])
      refl connected refl (omega arith)
