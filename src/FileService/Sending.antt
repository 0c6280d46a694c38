-- ===== src/FileService/Sending.antt =====
-- Writing the chunks of a file and streaming them back, where the network fails no call.
use redcloud_files.Base.{
  ℕ, zero, suc, ◌<◌, String, false, none, List, [], ◌∷◌, ◌++◌, map, ◌≡◌, refl, ap, sym, ◌∙◌, arith,
  All, str_eq, sort_by, insert_sorted,
}
use redcloud_files.Chunkserver.Storage.{Bytes}
use redcloud_files.Chunkserver.Storage.Pieces.{concat}
use redcloud_files.Chunkserver.Server.{Server, ChunkMetadata}
use redcloud_files.ChunkClient.{Net, metadata_for}
use redcloud_files.ChunkClient.Stored.{
  IsHeld, quiet, stored_in, write_chunk_stored, stored_in-IsHeld, stored_in_other, read_chunk_held,
}
use redcloud_files.Replication.Database.{Chunk}
use redcloud_files.Repositories.{index_lt}
use redcloud_files.FileService.{Fresh, Split, number_chunks, after_write, write_chunks}
use redcloud_files.FileService.Download.{
  after_read, after_chunk, after_parts, stream_chunk, stream_file_data,
}

pub append_assoc {ℓ} : {A : Type ℓ} (xs ys zs : List A) → (xs ++ ys) ++ zs ≡ xs ++ (ys ++ zs)
append_assoc [] ys zs = refl
append_assoc (x ∷ xs) ys zs = ap (λ r. x ∷ r) (append_assoc xs ys zs)

pub append_nil {ℓ} : {A : Type ℓ} (xs : List A) → xs ++ [] ≡ xs
append_nil [] = refl
append_nil (x ∷ xs) = ap (λ r. x ∷ r) (append_nil xs)

concat-append : (xs ys : List Bytes) → concat (xs ++ ys) ≡ concat xs ++ concat ys
concat-append [] ys = refl
concat-append (x ∷ xs) ys =
    ap (λ r. x ++ r) (concat-append xs ys) ∙ sym (append_assoc x (concat xs) (concat ys))

abbrev pub chunks_of : List Split → List Chunk
chunks_of splits = map (λ s. s.chunk) splits

abbrev pub bytes_of : List Split → List Bytes
bytes_of splits = map (λ s. s.bytes) splits

-- no other chunk of the list has the id of one of them
abbrev pub Distinct : List Chunk → Type 0
Distinct [] = Unit
Distinct (c ∷ rest) = All (λ d. str_eq d.chunk_id c.chunk_id ≡ false) rest × Distinct rest

abbrev pub metadata_of_split : Split → ChunkMetadata
metadata_of_split s =
    metadata_for s.chunk.chunk_id s.chunk.file_id s.chunk.chunk_index s.bytes s.chunk.checksum

-- the chunkserver after the writes
pub stored_all : Net → List Split → Server → Server
stored_all net [] server = server
stored_all net (s ∷ rest) server =
    stored_all net rest (stored_in net (metadata_of_split s) s.bytes server)

abbrev pub HasSum : Net → Split → Type 0
HasSum net s = net.outside.sha256 s.bytes ≡ s.chunk.checksum

module _ (net : Net) (pos : 0 < net.piece_size) where
  pub write_chunks_stored :
      (splits : List Split) (sent : List Chunk) (server : Server)
      → All (HasSum net) splits
      → write_chunks net splits sent (quiet server) ≡ record {
        chunks_metadata = sent ++ chunks_of splits;
        error = none;
        link = quiet (stored_all net splits server);
      }
  unfolding write_chunks after_write stored_all
  write_chunks_stored [] sent server h = rw append_nil
  write_chunks_stored (s ∷ rest) sent server h =
      rw
        (
          write_chunk_stored net pos s.chunk.chunk_id s.chunk.file_id s.chunk.chunk_index s.bytes
              s.chunk.checksum server h.0,
          write_chunks_stored rest (sent ++ s.chunk ∷ [])
              (stored_in net (metadata_of_split s) s.bytes server) h.1,
        )
        (rw append_assoc)

  stream_chunk_held :
      (left : ℕ) (chunk_id : String) (bytes : Bytes) (server : Server)
      → IsHeld chunk_id bytes server
      → (parts : List Bytes) × (stream_chunk net left chunk_id (quiet server)
          ≡ ((parts, none), quiet server))
        × (concat parts ≡ bytes)
  unfolding stream_chunk after_read
  stream_chunk_held zero chunk_id bytes server h = read_chunk_held net chunk_id bytes server pos h
  stream_chunk_held (suc left) chunk_id bytes server h =
      let r = read_chunk_held net chunk_id bytes server pos h in (r.0, rw r.1, r.2)

  pub stream_file_data_held :
      (splits : List Split) (server : Server)
      → All (λ s. IsHeld s.chunk.chunk_id s.bytes server) splits
      → (parts : List Bytes) × (stream_file_data net (chunks_of splits) (quiet server)
          ≡ ((parts, none), quiet server))
        × (concat parts ≡ concat (bytes_of splits))
  unfolding stream_file_data after_chunk after_parts
  stream_file_data_held [] server h = ([], refl, refl)
  stream_file_data_held (s ∷ rest) server h =
      let here = stream_chunk_held 5 s.chunk.chunk_id s.bytes server h.0 in
      let more = stream_file_data_held rest server h.1 in
      (
        here.0 ++ more.0,
        rw (here.1, more.1),
        concat-append here.0 more.0
            ∙ ap (λ b. b ++ concat more.0) here.2
            ∙ ap (λ b. s.bytes ++ b) more.2,
      )

module _ (net : Net) where
  stored_all_other :
      (splits : List Split) (server : Server) (chunk_id : String) (bytes : Bytes)
      → All (λ d. str_eq d.chunk_id chunk_id ≡ false) (chunks_of splits)
      → IsHeld chunk_id bytes server
      → IsHeld chunk_id bytes (stored_all net splits server)
  unfolding stored_all
  stored_all_other [] server chunk_id bytes d h = h
  stored_all_other (s ∷ rest) server chunk_id bytes d h =
      stored_all_other rest _ chunk_id bytes d.1
        (stored_in_other net (metadata_of_split s) s.bytes server chunk_id bytes d.0 h)

  pub stored_all-IsHeld :
      (splits : List Split) (server : Server)
      → Distinct (chunks_of splits)
      → All (λ s. IsHeld s.chunk.chunk_id s.bytes (stored_all net splits server)) splits
  unfolding stored_all
  stored_all-IsHeld [] server d = tt
  stored_all-IsHeld (s ∷ rest) server d = (
    stored_all_other rest _ s.chunk.chunk_id s.bytes d.0
        (stored_in-IsHeld net (metadata_of_split s) s.bytes server),
    stored_all-IsHeld rest (stored_in net (metadata_of_split s) s.bytes server) d.1,
  )

module _ (sha256 : Bytes → String) (fresh : Fresh) where
  pub number_chunks-sums :
      (k : ℕ) (parts : List Bytes)
      → All (λ s. sha256 s.bytes ≡ s.chunk.checksum) (number_chunks sha256 fresh k parts)
  unfolding number_chunks
  number_chunks-sums k [] = tt
  number_chunks-sums k (bytes ∷ rest) = (refl, number_chunks-sums (suc k) rest)

  pub number_chunks-bytes :
      (k : ℕ) (parts : List Bytes) → bytes_of (number_chunks sha256 fresh k parts) ≡ parts
  unfolding number_chunks
  number_chunks-bytes k [] = refl
  number_chunks-bytes k (bytes ∷ rest) = ap (λ r. bytes ∷ r) (number_chunks-bytes (suc k) rest)

  -- they stand in the order of their indices
  pub sort_by-number_chunks :
      (k : ℕ) (parts : List Bytes)
      → sort_by index_lt (chunks_of (number_chunks sha256 fresh k parts))
        ≡ chunks_of (number_chunks sha256 fresh k parts)
  unfolding number_chunks sort_by insert_sorted
  sort_by-number_chunks k [] = refl
  sort_by-number_chunks k (bytes ∷ []) = refl
  sort_by-number_chunks k (bytes ∷ next ∷ rest) =
      rw (sort_by-number_chunks (suc k) (next ∷ rest)) (ground arith)
