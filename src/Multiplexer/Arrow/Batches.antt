-- ===== src/Multiplexer/Arrow/Batches.antt =====
-- The handlers of src/grpc/multiplexer.rs that take and give a batch of rows in Arrow's format.
use tei_manager.Base.{
  ℕ, ◌*◌, String, Option, none, some, List, [], map, Result, ok, map_err, and_then, length, flatten,
  unwrap_or, if◌then◌else◌,
}
use tei_manager.Pool.{Channel, Status}
use tei_manager.Multiplexer.{Context, Reply, replied, panicked, extract_target}
use tei_manager.Multiplexer.Arrow.{
  ArrowLib, ArrowRequest, EmbedRequest, EmbedSparseRequest, SparseValue, Handler, give, ◌>>=◌,
  clients_of_instance, read_texts, present, embed_request, sparse_request, collect, collect_sparse,
  repeat, noop_rows, offsets,
}

-- A constructor of an array, which may panic.
abbrev pub constructed : {A : Type 0} → Option A → Reply A
constructed none = panicked
constructed (some a) = replied (ok a)

module _ {Bytes F : Type 0} (lib : ArrowLib Bytes F) where
  -- The batch of one column, and its bytes.
  unfoldable pub write_batch : lib.Array → Result Status Bytes
  write_batch array =
      and_then (map_err (Status.internal "Failed to create RecordBatch: {}") (lib.new_batch array))
        λ batch.
          and_then (map_err (Status.internal "Failed to set compression: {}") lib.compression)
            λ options.
              and_then
                (map_err (Status.internal "Failed to create IPC writer: {}")
                  (lib.new_writer options batch))
                λ new.
                  and_then
                    (map_err (Status.internal "Failed to write RecordBatch: {}")
                      (lib.write new batch))
                    λ written.
                      map_err (Status.internal "Failed to finish IPC writer: {}")
                        (lib.finish written)

  module _ (ctx : Context) where
    module _ (zero_f : F)
        (embed_stream : Channel
          → List EmbedRequest
          → Result String (List (Result String (List F)))) where
      -- The backend's embeddings, flat, and the length of one.
      unfoldable pub embed_rows :
          ArrowRequest Bytes → String → List (Option String) → Handler (ℕ × List F)
      embed_rows req name rows = do
        clients ← clients_of_instance ctx name
        responses ← give (
            replied (
              map_err (Status.internal "embed_stream failed: {}") (
                embed_stream clients.embed
                  (map (embed_request req.truncate req.normalize) (present rows)))))
        (emb_len, flat) ← give (replied (collect none [] responses))
        give (replied (ok (unwrap_or emb_len 384, flat)))

      unfoldable pub embed_arrow : ArrowRequest Bytes → Handler Bytes
      embed_arrow req = do
        name ← give (replied (extract_target req.target))
        rows ← give (read_texts (lib.read req.arrow_ipc))
        (emb_len, flat) ←
            (if req.noop
              then give (replied (ok (384, repeat (length rows * 384) zero_f)))
              else embed_rows req name rows)
        array ← give (constructed (lib.fixed_size_list emb_len flat))
        give (replied (write_batch array))

    module _ (one half quarter : F)
        (embed_sparse_stream : Channel
          → List EmbedSparseRequest
          → Result String (List (Result String (List (SparseValue F))))) where
      unfoldable pub embed_sparse_rows :
          ArrowRequest Bytes → String → List (Option String) → Handler (List (List (ℕ × F)))
      embed_sparse_rows req name rows = do
        clients ← clients_of_instance ctx name
        responses ← give (
            replied (
              map_err (Status.internal "embed_sparse_stream failed: {}") (
                embed_sparse_stream clients.embed
                  (map (sparse_request req.truncate) (present rows)))))
        give (replied (collect_sparse [] responses))

      unfoldable pub embed_sparse_arrow : ArrowRequest Bytes → Handler Bytes
      embed_sparse_arrow req = do
        name ← give (replied (extract_target req.target))
        rows ← give (read_texts (lib.read req.arrow_ipc))
        embeddings ←
            (if req.noop
              then give (replied (ok (noop_rows one half quarter 0 (length rows))))
              else embed_sparse_rows req name rows)
        array ← give (constructed (lib.list_of_structs (offsets embeddings) (flatten embeddings)))
        give (replied (write_batch array))
