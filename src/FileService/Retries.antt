-- ===== src/FileService/Retries.antt =====
-- What a download yields when a stream breaks off.
use redcloud_files.Base.{
  ℕ, zero, suc, ◌<◌, String, true, none, List, [], ◌∷◌, ◌++◌, map, take, ◌≡◌, refl, ap,
}
use redcloud_files.Chunkserver.Storage.{Bytes}
use redcloud_files.Chunkserver.Storage.Pieces.{concat, read_chunk_streaming_whole}
use redcloud_files.Chunkserver.Index.{get_chunk}
use redcloud_files.Chunkserver.Server.{
  Server, ChunkMetadata, metadata_from, piece_of, metadata_of, handle_read_chunk, stream_entry,
  stream_chunk as stream_file, done,
}
use redcloud_files.ChunkClient.{
  Net, cut, Code, unavailable, deadline_exceeded, chunk_not_found, other_code, is_transient,
  chunkserver_unavailable, raised_by, read_raised_by, next_fate, yielded, ending, call_read,
  read_chunk,
}
use redcloud_files.ChunkClient.Stored.{IsHeld, quiet, yielded-pieces}
use redcloud_files.FileService.Download.{after_read, after_parts, stream_chunk}

yielded-take : (n : ℕ) (parts : List Bytes) → yielded (take n (map piece_of parts)) ≡ take n parts
unfolding yielded take
yielded-take zero parts = refl
yielded-take (suc n) [] = refl
yielded-take (suc n) (p ∷ parts) = ap (λ r. p ∷ r) (yielded-take n parts)

transient : (code : Code) → is_transient code ≡ true → read_raised_by code ≡ chunkserver_unavailable
unfolding read_raised_by raised_by
transient unavailable h = refl
transient deadline_exceeded h = refl
transient chunk_not_found h = cc
transient other_code h = cc

responses :
    (net : Net) (chunk_id : String) (bytes : Bytes) (server : Server)
    → 0 < net.piece_size
    → IsHeld chunk_id bytes server
    → (m : ChunkMetadata) × ((parts : List Bytes) × (handle_read_chunk net.piece_size none chunk_id
            server
          ≡ (metadata_of m ∷ map piece_of parts, done))
        × (concat parts ≡ bytes))
unfolding handle_read_chunk stream_entry stream_file get_chunk
responses net chunk_id bytes server pos h =
    let whole = read_chunk_streaming_whole net.piece_size chunk_id server.disk bytes pos h.stored in
    (metadata_from h.indexed.0, (whole.0, rw (h.indexed.1, whole.1), whole.2))

stream_quiet :
    (net : Net) (left : ℕ) (chunk_id : String) (m : ChunkMetadata) (parts : List Bytes)
    (server : Server)
    → handle_read_chunk net.piece_size none chunk_id server
      ≡ (metadata_of m ∷ map piece_of parts, done)
    → stream_chunk net left chunk_id (quiet server) ≡ ((parts, none), quiet server)
unfolding stream_chunk after_read read_chunk next_fate call_read yielded ending
stream_quiet net zero chunk_id m parts server h = rw (h, yielded-pieces parts)
stream_quiet net (suc left) chunk_id m parts server h = rw (h, yielded-pieces parts)

-- Where a stream breaks off after n pieces because the chunkserver is unavailable and the next
-- attempt is answered, the download of a chunk yields those n pieces and then the whole chunk.
pub stream_chunk_repeats :
    (net : Net) (left n : ℕ) (code : Code) (chunk_id : String) (bytes : Bytes) (server : Server)
    → 0 < net.piece_size
    → is_transient code ≡ true
    → IsHeld chunk_id bytes server
    → (parts : List Bytes) × (concat parts ≡ bytes)
      × ((stream_chunk net
            (suc left)
            chunk_id
            (record { server = server; fates = cut (suc n) code ∷ [] })).0
          ≡ (take n parts ++ parts, none))
unfolding stream_chunk after_read after_parts read_chunk next_fate call_read yielded ending take
stream_chunk_repeats net left n code chunk_id bytes server pos t h =
    let (m, (parts, read, whole)) = responses net chunk_id bytes server pos h in
    (
      parts,
      whole,
      rw (transient code t, read, stream_quiet net left chunk_id m parts server read)
          (rw yielded-take),
    )
