-- ===== src/Multiplexer/Arrow/RoundTrips.antt =====
-- What the columns of src/grpc/multiplexer.rs hold: the backend's embeddings, row by row.
use tei_manager.Base.{
  ℕ, ◌*◌, ◌^◌, ◌<◌, ◌≡◌, ◌∙◌, String, true, false, Option, some, List, [], ◌∷◌, map, arith, Result,
  ok, length, flatten,
}
use tei_manager.Pool.{BackendPool, BackendClients, Channel}
use tei_manager.Multiplexer.{Context, replied, clients_for}
use tei_manager.Multiplexer.Routes.{Names, extract_target_iff}
use tei_manager.Multiplexer.Arrow.{
  ArrowLib, ArrowRequest, EmbedRequest, EmbedSparseRequest, SparseValue, Column, pair_of,
  read_texts, first_column, present, embed_request, sparse_request, repeat, offsets, scan_lengths,
}
use tei_manager.Multiplexer.Arrow.Layout.{
  fixed_rows, AllOfLength, length-flatten, fixed_rows-flatten, cut_rows, IsMonotone,
  cut_rows-offsets, offsets-IsMonotone, collect-all, collect_sparse-all, length-repeat,
  fixed_rows-repeat,
}
use tei_manager.Multiplexer.Arrow.Batches.{
  write_batch, embed_rows, embed_arrow, embed_sparse_rows, embed_sparse_arrow,
}

-- The documented layout of the arrays, and when their constructors do not panic.
pub record ArrowLaws {Bytes F : Type 0} (lib : ArrowLib Bytes F) : Type 0 where
  pub rows_of : lib.Array → List (List F)
  pub structs_of : lib.Array → List (List (ℕ × F))
  pub fixed_size_layout :
      (size count : ℕ) (values : List F)
      → 0 < size
      → size < 2 ^ 31
      → length values ≡ count * size
      → (array : lib.Array) × (lib.fixed_size_list size values ≡ some array)
        × (rows_of array ≡ fixed_rows count size values)
  pub struct_layout :
      (ends : List ℕ) (values : List (ℕ × F))
      → IsMonotone 0 (length values) (0 ∷ ends)
      → length values < 2 ^ 31
      → (array : lib.Array) × (lib.list_of_structs (0 ∷ ends) values ≡ some array)
        × (structs_of array ≡ cut_rows (0 ∷ ends) values)

module _ {Bytes F : Type 0} (lib : ArrowLib Bytes F) (laws : ArrowLaws lib) (ctx : Context)
    (req : ArrowRequest Bytes) (name : String) (rows : List (Option String)) (columns : List Column)
    (batches : List (Result String (List Column))) (pool : BackendPool)
    (named : Names req.target name)
    (batch : lib.read req.arrow_ipc ≡ ok (ok (Column.texts rows ∷ columns) ∷ batches)) where
  module _ (zero_f : F)
      (embed_stream : Channel
        → List EmbedRequest
        → Result String (List (Result String (List F)))) where
    answered-array :
        (emb_len : ℕ) (flat : List F) (array : lib.Array) (pool' : BackendPool)
        → embed_rows lib ctx zero_f embed_stream req name rows pool
          ≡ (replied (ok (emb_len, flat)), pool')
        → req.noop ≡ false
        → lib.fixed_size_list emb_len flat ≡ some array
        → embed_arrow lib ctx zero_f embed_stream req pool
          ≡ (replied (write_batch lib array), pool')
    unfolding embed_arrow read_texts first_column
    answered-array emb_len flat array pool' r off made =
        ground (arith, (extract_target_iff req.target name).1 named, batch, r, off, made)

    embed_rows-all :
        (clients : BackendClients) (pool' : BackendPool) (first : List F) (more : List (List F))
        → clients_for ctx name pool ≡ (ok clients, pool')
        → embed_stream clients.embed (map (embed_request req.truncate req.normalize) (present rows))
          ≡ ok (map ok (first ∷ more))
        → length first < 2 ^ 31
        → embed_rows lib ctx zero_f embed_stream req name rows pool
          ≡ (replied (ok (length first, flatten (first ∷ more))), pool')
    unfolding embed_rows
    embed_rows-all clients pool' first more c s h = ground (arith, c, s, collect-all first more h)

    -- If the first column holds texts and the backend answers one request per text that is not null,
    -- in order, with embeddings of one length, not 0 and below 2^31, then `embed_arrow` replies with an
    -- array whose rows are these embeddings, in order. Null rows get no row: the rows of the answer
    -- are those of the texts that are there.
    pub embed_arrow-rows :
        (clients : BackendClients) (pool' : BackendPool) (size : ℕ) (first : List F)
        (more : List (List F))
        → req.noop ≡ false
        → clients_for ctx name pool ≡ (ok clients, pool')
        → embed_stream clients.embed (map (embed_request req.truncate req.normalize) (present rows))
          ≡ ok (map ok (first ∷ more))
        → AllOfLength size (first ∷ more)
        → 0 < size
        → size < 2 ^ 31
        → (array : lib.Array) × (embed_arrow lib ctx zero_f embed_stream req pool
            ≡ (replied (write_batch lib array), pool'))
          × (laws.rows_of array ≡ first ∷ more)
    embed_arrow-rows clients pool' size first more off c s same some_floats small =
        let (array, made, read) =
          laws.fixed_size_layout size (length (first ∷ more)) (flatten (first ∷ more)) some_floats
            small (length-flatten size (first ∷ more) same) in
        let r = embed_rows-all clients pool' first more c s (omega (arith, same.0, small)) in
        (
          array,
          answered-array (length first) (flatten (first ∷ more)) array pool' r off
              (rw (same.0) made),
          read ∙ fixed_rows-flatten size (first ∷ more) same,
        )

    -- With `noop`, `embed_arrow` asks neither the pool nor the backend, and replies with a row of 384
    -- zeros for each row of the batch, null or not, whether or not the instance exists.
    pub embed_arrow_noop :
        req.noop ≡ true
        → (array : lib.Array) × (embed_arrow lib ctx zero_f embed_stream req pool
            ≡ (replied (write_batch lib array), pool))
          × (laws.rows_of array ≡ repeat (length rows) (repeat 384 zero_f))
    unfolding embed_arrow read_texts first_column
    embed_arrow_noop on =
        let (array, made, read) =
          laws.fixed_size_layout 384 (length rows) (repeat (length rows * 384) zero_f) (omega arith)
            (omega arith) (length-repeat zero_f (length rows * 384)) in
        (
          array,
          ground (arith, (extract_target_iff req.target name).1 named, batch, on, made),
          read ∙ fixed_rows-repeat zero_f (length rows) 384,
        )

  module _ (one half quarter : F)
      (embed_sparse_stream : Channel
        → List EmbedSparseRequest
        → Result String (List (Result String (List (SparseValue F))))) where
    embed_sparse_rows-all :
        (clients : BackendClients) (pool' : BackendPool) (embs : List (List (SparseValue F)))
        → clients_for ctx name pool ≡ (ok clients, pool')
        → embed_sparse_stream clients.embed (map (sparse_request req.truncate) (present rows))
          ≡ ok (map ok embs)
        → embed_sparse_rows lib ctx one half quarter embed_sparse_stream req name rows pool
          ≡ (replied (ok (map (map pair_of) embs)), pool')
    unfolding embed_sparse_rows
    embed_sparse_rows-all clients pool' embs c s = ground (arith, c, s, collect_sparse-all [] embs)

    -- If the first column holds texts and the backend answers the requests for the texts that are not
    -- null with sparse embeddings of fewer than 2^31 values in all, of any lengths, then
    -- `embed_sparse_arrow` replies with an array whose rows are these embeddings, in order: the offsets
    -- do not overflow and cut the flat values where one embedding ends.
    pub embed_sparse_arrow-rows :
        (clients : BackendClients) (pool' : BackendPool) (embs : List (List (SparseValue F)))
        → req.noop ≡ false
        → clients_for ctx name pool ≡ (ok clients, pool')
        → embed_sparse_stream clients.embed (map (sparse_request req.truncate) (present rows))
          ≡ ok (map ok embs)
        → length (flatten (map (map pair_of) embs)) < 2 ^ 31
        → (array : lib.Array) × (embed_sparse_arrow lib ctx one half quarter embed_sparse_stream req
              pool
            ≡ (replied (write_batch lib array), pool'))
          × (laws.structs_of array ≡ map (map pair_of) embs)
    unfolding embed_sparse_arrow read_texts first_column offsets
    embed_sparse_arrow-rows clients pool' embs off c s small =
        let pairs : List (List (ℕ × F)) = map (map pair_of) embs in
        let r = embed_sparse_rows-all clients pool' embs c s in
        let (array, made, read) =
          laws.struct_layout (scan_lengths 0 pairs) (flatten pairs) (offsets-IsMonotone pairs small)
            small in
        (
          array,
          ground (arith, (extract_target_iff req.target name).1 named, batch, off, r, made),
          read ∙ cut_rows-offsets pairs small,
        )
