-- ===== src/Chunkserver/Server/Transfers.antt =====
-- What a client reads back after it wrote a chunk, and what a refused write leaves.
use redcloud_files.Base.{
  String, false, ℕ, ◌<◌, Option, none, some, List, [], ◌∷◌, ◌++◌, map, length, ◌≡◌, ◌≢◌, refl, ap,
  sym, ◌∙◌, arith, eq_iff, eq_refl, All, ==_iff,
}
use redcloud_files.Base.Dict
use redcloud_files.Chunkserver.Storage.{Bytes, Fault, write_chunk, broken_off}
use redcloud_files.Chunkserver.Storage.Pieces.{concat, IsPiece, read_chunk_streaming_whole}
use redcloud_files.Chunkserver.Checksum.{update, extend, finalize}
use redcloud_files.Chunkserver.Index.{add_chunk, get_chunk}
use redcloud_files.Chunkserver.Server.{
  Server, Outside, ChunkMetadata, WriteChunkRequest, written, Received, handle_write_chunk,
  handle_read_chunk, metadata_of, piece_of, done, receive, nothing_received, conclude_write,
  check_and_store, store_chunk, entry_of, metadata_from, stream_entry, stream_chunk, last_metadata,
  Received, add_piece, with_calculator, go_on,
}
use redcloud_files.Chunkserver.Server.Intact.{IsClean}

-- the messages of an upload: the metadata, then the pieces
abbrev pub piece_message : Bytes → Option WriteChunkRequest
piece_message piece = some (record { metadata = none; piece = some piece })

abbrev pub upload : ChunkMetadata → List Bytes → List (Option WriteChunkRequest)
upload metadata parts =
    some (record { metadata = some metadata; piece = none }) ∷ map piece_message parts

append_assoc : (xs ys zs : Bytes) → (xs ++ ys) ++ zs ≡ xs ++ (ys ++ zs)
append_assoc [] ys zs = refl
append_assoc (x ∷ xs) ys zs = ap (λ r. x ∷ r) (append_assoc xs ys zs)

append_nil : (xs : Bytes) → xs ++ [] ≡ xs
append_nil [] = refl
append_nil (x ∷ xs) = ap (λ r. x ∷ r) (append_nil xs)

abbrev received : Option ChunkMetadata → Bytes → Received
received metadata buffer = record {
  metadata = metadata;
  data_buffer = buffer;
  checksum_calculator = record { hashed = buffer; finalized = false };
}

receive-parts :
    (parts : List Bytes) (metadata : Option ChunkMetadata) (buffer : Bytes)
    → receive (map piece_message parts) (received metadata buffer)
      ≡ some (received metadata (buffer ++ concat parts))
unfolding receive go_on add_piece with_calculator last_metadata update extend
receive-parts [] metadata buffer = ap (λ b. some (received metadata b)) (sym (append_nil buffer))
receive-parts (piece ∷ parts) metadata buffer =
    receive-parts parts metadata (buffer ++ piece)
    ∙ ap (λ b. some (received metadata b)) (append_assoc buffer piece (concat parts))

pub stored_upload :
    (outside : Outside) (metadata : ChunkMetadata) (parts : List Bytes) (self : Server)
    → outside.sha256 (concat parts) ≡ metadata.checksum
    → length (concat parts) ≡ metadata.total_size
    → handle_write_chunk outside none (upload metadata parts) self
      ≡ store_chunk outside none metadata (concat parts) self
unfolding handle_write_chunk conclude_write check_and_store finalize receive go_on add_piece
    last_metadata
stored_upload outside metadata parts self h size = ground (
  arith,
  receive-parts parts (some metadata) [],
  eq_iff (outside.sha256 (concat parts)) metadata.checksum,
  ==_iff (length (concat parts)) metadata.total_size,
)

-- An upload of pieces whose checksum and size are those of the metadata is accepted when the write does
-- not fail, and reading the chunk, when no read of the file raises, gives that metadata and pieces
-- that together are the data sent.
pub handle_read_chunk-handle_write_chunk :
    (outside : Outside) (piece_size : ℕ) (metadata : ChunkMetadata) (parts : List Bytes)
    (self : Server)
    → 0 < piece_size
    → outside.sha256 (concat parts) ≡ metadata.checksum
    → length (concat parts) ≡ metadata.total_size
    → ((handle_write_chunk outside none (upload metadata parts) self).0 ≡ written)
      × ((read : List Bytes) × (handle_read_chunk piece_size none metadata.chunk_id
              (handle_write_chunk outside none (upload metadata parts) self).1
            ≡ (metadata_of metadata ∷ map piece_of read, done))
          × (concat read ≡ concat parts)
          × All (IsPiece piece_size) read)
unfolding handle_read_chunk stream_entry stream_chunk store_chunk write_chunk get_chunk add_chunk
    entry_of metadata_from
handle_read_chunk-handle_write_chunk outside piece_size metadata parts self pos h size =
    let stored = Dict.lookup-insert metadata.chunk_id metadata.chunk_id (concat parts) self.disk in
    let whole =
      read_chunk_streaming_whole piece_size metadata.chunk_id
        (Dict.insert metadata.chunk_id (concat parts) self.disk) (concat parts) pos
        (ground (arith, stored, eq_refl metadata.chunk_id)) in
    rw (stored_upload outside metadata parts self h size) (
      refl,
      (
        whole.0,
        ground (
          arith,
          whole.1,
          eq_refl metadata.chunk_id,
          Dict.lookup-insert metadata.chunk_id metadata.chunk_id (entry_of outside metadata)
              self.chunks.index,
        ),
        whole.2,
        whole.3,
      ),
    )

check_and_store_refused :
    (outside : Outside) (fault : Option Fault) (metadata : Option ChunkMetadata) (computed : String)
    (bytes : Bytes) (self : Server)
    → IsClean fault
    → ((check_and_store outside fault metadata computed bytes self).0 ≢ written)
    → (check_and_store outside fault metadata computed bytes self).1 ≡ self
unfolding check_and_store store_chunk write_chunk broken_off
check_and_store_refused outside fault none computed bytes self clean h = refl
check_and_store_refused outside none (some metadata) computed bytes self clean h = ground (arith, h)
check_and_store_refused outside (some fault) (some metadata) computed bytes self clean h =
    ground (arith, clean)

conclude_write_refused :
    (outside : Outside) (fault : Option Fault) (r : Option Received) (self : Server)
    → IsClean fault
    → ((conclude_write outside fault r self).0 ≢ written)
    → (conclude_write outside fault r self).1 ≡ self
unfolding conclude_write
conclude_write_refused outside fault none self clean h = refl
conclude_write_refused outside fault (some r) self clean h =
    check_and_store_refused outside fault r.metadata
      (finalize outside.sha256 r.checksum_calculator).0 r.data_buffer self clean h

-- A WriteChunk that answers with an error has changed nothing, unless its write failed after it opened
-- the file.
pub handle_write_chunk_refused :
    (outside : Outside) (fault : Option Fault) (requests : List (Option WriteChunkRequest))
    (self : Server)
    → IsClean fault
    → ((handle_write_chunk outside fault requests self).0 ≢ written)
    → (handle_write_chunk outside fault requests self).1 ≡ self
unfolding handle_write_chunk
handle_write_chunk_refused outside fault requests self =
    conclude_write_refused outside fault (receive requests nothing_received) self
