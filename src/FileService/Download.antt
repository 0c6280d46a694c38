-- ===== src/FileService/Download.antt =====
-- file_service.py: reading a file, its chunks and its metadata.
use redcloud_files.Base.{
  ℕ, zero, suc, String, Bool, true, false, not, Option, none, some, List, [], ◌∷◌, ◌++◌,
  if◌then◌else◌, str_eq,
}
use redcloud_files.Chunkserver.Storage.{Bytes}
use redcloud_files.ChunkClient.{
  Net, Link, Answer, answer, raises, Exception, file_not_found, unauthorized_access,
  chunkserver_unavailable, read_chunk, ping,
}
use redcloud_files.Replication.Operation.{ChunkDescriptor}
use redcloud_files.Replication.Database.{Db, File, Chunk}
use redcloud_files.TagService.{FileMetadata, metadata_with_tags}
use redcloud_files.Repositories.{get_by_id, get_chunks_by_file}
use redcloud_files.FileService.{chunks_payload}

-- the exceptions that `stream_file_data` catches and tries again after
abbrev pub is_retried : Exception → Bool
is_retried file_not_found = true
is_retried chunkserver_unavailable = true
is_retried _ = false

-- all that a generator yields, and the exception that ends it
abbrev pub Stream : Type 0
Stream = (List Bytes × Option Exception) × Link

unfoldable pub after_parts : List Bytes → Stream → Stream
after_parts parts ((more, error), link) = ((parts ++ more, error), link)

unfoldable pub after_read : (Link → Stream) → Stream → Stream
after_read again ((parts, none), next) = ((parts, none), next)
after_read again ((parts, some e), next) =
    if is_retried e then after_parts parts (again next) else ((parts, some e), next)

unfoldable pub after_chunk : (Link → Stream) → Stream → Stream
after_chunk rest ((parts, none), next) = after_parts parts (rest next)
after_chunk rest ((parts, some e), next) = ((parts, some e), next)

module _ (net : Net) where
  -- the attempts at one chunk, with the retries that are left; a retry starts at the chunk's first byte
  unfoldable pub stream_chunk : ℕ → String → Link → Stream
  stream_chunk zero chunk_id link = read_chunk net chunk_id link
  stream_chunk (suc left) chunk_id link =
      after_read (stream_chunk left chunk_id) (read_chunk net chunk_id link)

  -- max_retries = 5
  unfoldable pub stream_file_data : List Chunk → Link → Stream
  stream_file_data [] link = (([], none), link)
  stream_file_data (c ∷ chunks) link =
      after_chunk (stream_file_data chunks) (stream_chunk 5 c.chunk_id link)

-- `file`, if the user owns it
unfoldable pub owned : Option File → String → Answer File
owned none user_id = raises file_not_found
owned (some file) user_id =
    if not (str_eq file.owner_id user_id) then raises unauthorized_access else answer file

unfoldable pub with_data : File → List Chunk → Answer (File × List Chunk)
with_data file [] = raises file_not_found
with_data file (c ∷ chunks) = answer (file, c ∷ chunks)

unfoldable pub and_then : {A B : Type 0} → (A → Answer B) → Answer A → Answer B
and_then f (answer a) = f a
and_then f (raises e) = raises e

-- The generator that is answered is `stream_file_data` of the chunks here.
unfoldable pub download_file : String → String → Db → Answer (File × List Chunk)
download_file file_id user_id db =
    and_then (λ file. with_data file (get_chunks_by_file file_id db))
      (owned (get_by_id file_id db) user_id)

unfoldable pub validate_each : List Chunk → Link → Bool × Link
validate_each [] link = (true, link)
validate_each (c ∷ chunks) link =
    let (available, next) = ping link in
    let rest = validate_each chunks next in if not available then (true, next) else rest

unfoldable pub validate_file_integrity : String → Db → Link → Bool × Link
validate_file_integrity file_id db link = validate_each (get_chunks_by_file file_id db) link

unfoldable pub get_chunk_descriptors : String → String → Db → Answer (List ChunkDescriptor)
get_chunk_descriptors file_id user_id db =
    and_then (λ file. answer (chunks_payload (get_chunks_by_file file_id db)))
      (owned (get_by_id file_id db) user_id)

unfoldable pub get_file_metadata : String → String → Db → Answer FileMetadata
get_file_metadata file_id user_id db =
    and_then (λ file. answer (metadata_with_tags db.tags file))
      (owned (get_by_id file_id db) user_id)
