-- ===== src/ChunkClient/Stored.antt =====
-- Calls that the network does not fail: what a chunkserver holds after a write or a deletion, and
-- what a read gives.
use redcloud_files.Base.{
  ℕ, zero, suc, ◌<◌, String, true, false, none, some, List, [], ◌∷◌, map, length, ◌≡◌, refl, ap,
  ◌∙◌, arith, str_eq, eq_refl,
}
use redcloud_files.Base.Dict
use redcloud_files.Chunkserver.Storage.{
  unlink_raises, Bytes, pieces, write_chunk as write_file, delete_chunk as delete_file,
}
use redcloud_files.Chunkserver.Storage.Pieces.{concat, pieces-whole, read_chunk_streaming_whole}
use redcloud_files.Chunkserver.Index.{
  ChunkIndexEntry, add_chunk, get_chunk, remove_chunk, add_tombstone,
}
use redcloud_files.Chunkserver.Server.{
  delete_and_bury, Server, Outside, ChunkMetadata, handle_read_chunk, handle_delete_chunk, piece_of,
  store_chunk, entry_of, stream_entry, stream_chunk,
}
use redcloud_files.Chunkserver.Server.Transfers.{stored_upload}
use redcloud_files.ChunkClient.{
  Net, Link, answer, request_generator, metadata_for, read_response, next_fate, call_write,
  write_chunk_internal, write_chunk, yielded, ending, call_read, read_chunk,
}
use redcloud_files.ChunkClient.Once.{write_chunk_once}

-- the chunkserver holds the chunk with these bytes
pub record IsHeld (chunk_id : String) (bytes : Bytes) (server : Server) : Type 0 where
  pub stored : Dict.lookup chunk_id server.disk ≡ some bytes
  pub indexed : (entry : ChunkIndexEntry) × (Dict.lookup chunk_id server.chunks.index ≡ some entry)

abbrev pub quiet : Server → Link
quiet server = record { server = server; fates = [] }

-- the chunkserver after a write
abbrev pub stored_in : Net → ChunkMetadata → Bytes → Server → Server
stored_in net metadata bytes server = record {
  disk = Dict.insert metadata.chunk_id bytes server.disk;
  chunks = add_chunk (entry_of net.outside metadata) server.chunks;
}

module _ (net : Net) (pos : 0 < net.piece_size) where
  written_pieces :
      (n : ℕ) (bytes : Bytes) → 0 < n → concat (pieces (suc (length bytes)) n bytes) ≡ bytes
  written_pieces zero bytes h = absurd (omega arith)
  written_pieces (suc n) bytes h = (pieces-whole (suc (length bytes)) n bytes (omega arith)).0

  pub write_chunk_stored :
      (chunk_id file_id : String) (chunk_index : ℕ) (bytes : Bytes) (checksum : String)
      (server : Server)
      → net.outside.sha256 bytes ≡ checksum
      → write_chunk net chunk_id file_id chunk_index bytes checksum (quiet server) ≡ (
        some (answer true),
        quiet
            (stored_in net (metadata_for chunk_id file_id chunk_index bytes checksum) bytes server),
      )
  unfolding write_chunk_internal next_fate call_write read_response request_generator store_chunk
      write_file
  write_chunk_stored chunk_id file_id chunk_index bytes checksum server h =
      let whole = written_pieces net.piece_size bytes pos in
      let up =
        stored_upload net.outside (metadata_for chunk_id file_id chunk_index bytes checksum)
          (pieces (suc (length bytes)) net.piece_size bytes) server
          (ap net.outside.sha256 whole ∙ h) (ap length whole) in
      rw (write_chunk_once net chunk_id file_id chunk_index bytes checksum (quiet server), up)
        (rw whole)

pub stored_in-IsHeld :
    (net : Net) (metadata : ChunkMetadata) (bytes : Bytes) (server : Server)
    → IsHeld metadata.chunk_id bytes (stored_in net metadata bytes server)
unfolding add_chunk entry_of
stored_in-IsHeld net metadata bytes server = record {
  stored = ground (
    arith,
    eq_refl metadata.chunk_id,
    Dict.lookup-insert metadata.chunk_id metadata.chunk_id bytes server.disk,
  );
  indexed = (
    entry_of net.outside metadata,
    ground (
      arith,
      eq_refl metadata.chunk_id,
      Dict.lookup-insert metadata.chunk_id metadata.chunk_id (entry_of net.outside metadata)
          server.chunks.index,
    ),
  );
}

pub stored_in_other :
    (net : Net) (metadata : ChunkMetadata) (bytes : Bytes) (server : Server) (chunk_id : String)
    (held : Bytes)
    → str_eq metadata.chunk_id chunk_id ≡ false
    → IsHeld chunk_id held server
    → IsHeld chunk_id held (stored_in net metadata bytes server)
unfolding add_chunk entry_of
stored_in_other net metadata bytes server chunk_id held ne h = record {
  stored =
      ground (arith, h.stored, Dict.lookup-insert metadata.chunk_id chunk_id bytes server.disk);
  indexed = (
    h.indexed.0,
    ground (
      arith,
      h.indexed.1,
      Dict.lookup-insert metadata.chunk_id chunk_id (entry_of net.outside metadata)
          server.chunks.index,
    ),
  );
}

-- Deleting another chunk leaves a chunk that is held.
pub deleted_other :
    (outside : Outside) (other chunk_id : String) (bytes : Bytes) (server : Server)
    → str_eq other chunk_id ≡ false
    → IsHeld chunk_id bytes server
    → IsHeld chunk_id bytes (handle_delete_chunk outside false other server).1
unfolding handle_delete_chunk delete_and_bury unlink_raises delete_file remove_chunk add_tombstone
deleted_other outside other chunk_id bytes server ne h = record {
  stored = ground (arith, h.stored, Dict.lookup-remove other chunk_id server.disk);
  indexed = (
    h.indexed.0,
    ground (
      arith,
      h.indexed.1,
      Dict.lookup-remove other chunk_id server.chunks.index,
      Dict.lookup-remove other chunk_id (Dict.remove other server.chunks.index),
    ),
  );
}

pub yielded-pieces : (parts : List Bytes) → yielded (map piece_of parts) ≡ parts
unfolding yielded
yielded-pieces [] = refl
yielded-pieces (piece ∷ parts) = ap (λ r. piece ∷ r) (yielded-pieces parts)

-- A read of a chunk that is held gives its bytes.
pub read_chunk_held :
    (net : Net) (chunk_id : String) (bytes : Bytes) (server : Server)
    → 0 < net.piece_size
    → IsHeld chunk_id bytes server
    → (parts : List Bytes) × (read_chunk net chunk_id (quiet server)
        ≡ ((parts, none), quiet server))
      × (concat parts ≡ bytes)
unfolding read_chunk next_fate call_read handle_read_chunk stream_entry stream_chunk get_chunk
    yielded ending
read_chunk_held net chunk_id bytes server pos h =
    let whole = read_chunk_streaming_whole net.piece_size chunk_id server.disk bytes pos h.stored in
    (
      whole.0,
      rw (h.indexed.1, whole.1)
          (ap (λ (p : List Bytes). ((p, none), quiet server)) (yielded-pieces whole.0)),
      whole.2,
    )
