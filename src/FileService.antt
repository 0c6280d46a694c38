-- ===== src/FileService.antt =====
-- controller/services/file_service.py: upload, download and deletion of files. No other call runs
-- while one of these waits for the chunkserver.
pub mod Cleanup
pub mod Quiet
pub mod Sending
pub mod Recorded
pub mod RoundTrip
pub mod Undone
pub mod Retries
pub mod Removed
pub mod Download
pub mod Deletion
use redcloud_files.Base.{
  ℕ, zero, suc, ◌+◌, String, Bool, true, false, not, Option, none, some, List, [], ◌∷◌, ◌++◌, map,
  length, if◌then◌else◌, str_eq, find,
}
use redcloud_files.Base.Dict
use redcloud_files.Chunkserver.Storage.{Bytes, pieces}
use redcloud_files.Chunkserver.Server.{Server}
use redcloud_files.ChunkClient.{
  Net, Link, Fate, Code, Answer, answer, raises, Exception, file_not_found, unauthorized_access,
  chunkserver_unavailable, empty_tag_list, other_exception, write_chunk, read_chunk, delete_chunk,
}
use redcloud_files.Replication.Operation.{ChunkDescriptor, FileCreated, ChunksCreated}
use redcloud_files.Replication.Database.{Db, File, Chunk, Result, ok, err, ◌>>=◌}
use redcloud_files.Replication.Files.{insert_tags}
use redcloud_files.Replication.Emitter.{
  Emission, emit_file_created, emit_file_deleted, emit_chunks_created,
}
use redcloud_files.Replication.ChunkGc.{ChunkLiveness, marked_row}
use redcloud_files.Queries.{query_by_tags_and_owner}
use redcloud_files.TagService.{FileMetadata, get_tags_for_file}
use redcloud_files.Repositories.{
  create_file, get_by_id, find_by_owner_and_name, delete_file, create_chunks, get_chunks_by_file,
}

-- The controller's database with the table `chunk_liveness`, and its link to the chunkserver.
-- `marking_fails` tells that the transaction which marks chunks for collection raises.
pub record World : Type 0 where
  pub db : Db
  pub liveness : ChunkLiveness
  pub link : Link
  pub marking_fails : Bool

-- what an upload takes from outside: `generate_uuid` for the file and for each chunk, the time of the
-- upload and of a clean-up, and the two emissions; CHUNK_SIZE_BYTES is a parameter too
pub record Fresh : Type 0 where
  pub file_id : String
  pub chunk_id : ℕ → String
  pub created_at : String
  pub now : String
  pub file_emission : Emission
  pub chunks_emission : Emission

pub record Split : Type 0 where
  pub chunk : Chunk
  pub bytes : Bytes

module _ (sha256 : Bytes → String) (fresh : Fresh) where
  -- the loop with `chunk_index`, over what `file_data.read` gives
  unfoldable pub number_chunks : ℕ → List Bytes → List Split
  number_chunks chunk_index [] = []
  number_chunks chunk_index (bytes ∷ rest) =
      record {
        chunk = record {
          chunk_id = fresh.chunk_id chunk_index;
          file_id = fresh.file_id;
          chunk_index = chunk_index;
          size = length bytes;
          checksum = sha256 bytes;
        };
        bytes = bytes;
      }
      ∷ number_chunks (suc chunk_index) rest

  unfoldable pub split_into_chunks_with_data : ℕ → Bytes → List Split
  split_into_chunks_with_data chunk_size file_data =
      number_chunks 0 (pieces (suc (length file_data)) chunk_size file_data)

-- The chunks written so far, which are both `chunks_metadata` and `written_chunk_ids`, and the
-- exception that ended the loop.
pub record Sent : Type 0 where
  pub chunks_metadata : List Chunk
  pub error : Option Exception
  pub link : Link

unfoldable pub after_write : (Link → Sent) → List Chunk → Option (Answer Bool) × Link → Sent
after_write go_on sent (some (answer true), next) = go_on next
after_write go_on sent (some (raises e), next) = record {
  chunks_metadata = sent;
  error = some e;
  link = next;
}
after_write go_on sent (_, next) = record {
  chunks_metadata = sent;
  error = some other_exception;
  link = next;
}

-- what `delete_chunk` answers is not read
unfoldable pub after_delete : (Link → Bool × Link) → Answer Bool × Link → Bool × Link
after_delete again (answer success, next) = (true, next)
after_delete again (raises e, next) = again next

unfoldable pub with_failure :
    String → (Link → List String × Link) → Bool × Link → List String × Link
with_failure chunk_id rest (true, next) = rest next
with_failure chunk_id rest (false, next) =
    let (failed_deletions, last) = rest next in (chunk_id ∷ failed_deletions, last)

-- the loop over the ids, with the statement of chunk_gc_manager.py once more
unfoldable pub mark_each : String → List String → ChunkLiveness → ChunkLiveness
mark_each now [] table = table
mark_each now (chunk_id ∷ rest) table =
    mark_each now rest (Dict.insert chunk_id (marked_row now (Dict.lookup chunk_id table)) table)

-- an exception of the database is caught and nothing is committed
unfoldable pub mark_chunks_for_gc : Bool → String → List String → ChunkLiveness → ChunkLiveness
mark_chunks_for_gc fails now chunk_ids table =
    if fails then table else mark_each now chunk_ids table

module _ (net : Net) where
  unfoldable pub write_chunks : List Split → List Chunk → Link → Sent
  write_chunks [] sent link = record { chunks_metadata = sent; error = none; link = link }
  write_chunks (s ∷ rest) sent link = after_write (write_chunks rest (sent ++ s.chunk ∷ [])) sent (
      write_chunk net s.chunk.chunk_id s.chunk.file_id s.chunk.chunk_index s.bytes s.chunk.checksum
        link)

  -- one chunk, with the attempts that are left
  unfoldable pub try_delete : ℕ → String → Link → Bool × Link
  try_delete zero chunk_id link = (false, link)
  try_delete (suc left) chunk_id link =
      after_delete (try_delete left chunk_id) (delete_chunk net chunk_id link)

  -- max_attempts = 3
  unfoldable pub delete_each : List String → Link → List String × Link
  delete_each [] link = ([], link)
  delete_each (chunk_id ∷ rest) link =
      with_failure chunk_id (delete_each rest) (try_delete 3 chunk_id link)

  unfoldable pub cleanup_chunks : String → List String → World → World
  cleanup_chunks now chunk_ids w =
      let (failed_deletions, link) = delete_each chunk_ids w.link in
      record w {
        link = link;
        liveness = mark_chunks_for_gc w.marking_fails now failed_deletions w.liveness;
      }

-- `existing_file`, deleted if it is there
unfoldable pub drop_existing : Option File → Db → Db
drop_existing none db = db
drop_existing (some existing) db = delete_file existing.file_id db

unfoldable pub id_of : Option File → Option String
id_of none = none
id_of (some file) = some file.file_id

unfoldable pub chunks_payload : List Chunk → List ChunkDescriptor
chunks_payload chunks =
    map
      (λ (c : Chunk). record {
        chunk_id = c.chunk_id;
        chunk_index = c.chunk_index;
        size = c.size;
        checksum = c.checksum;
      })
      chunks

-- the arguments of an upload
pub record Upload : Type 0 where
  pub file_name : String
  pub file_data : Bytes
  pub file_size : ℕ
  pub tags : List String
  pub owner_id : String

unfoldable pub file_of : Fresh → Upload → File
file_of fresh u = record {
  file_id = fresh.file_id;
  name = u.file_name;
  size = u.file_size;
  owner_id = u.owner_id;
  created_at = fresh.created_at;
}

unfoldable pub with_chunks : List Chunk → Db → Result Db
with_chunks chunks db = create_chunks chunks db.chunks >>= λ rows. ok (record db { chunks = rows })

abbrev pub file_payload : Fresh → Upload → Option File → FileCreated
file_payload fresh u existing = record {
  file_id = fresh.file_id;
  name = u.file_name;
  size = u.file_size;
  owner_id = u.owner_id;
  created_at = fresh.created_at;
  tags = u.tags;
  replaced_file_id = id_of existing;
}

abbrev pub chunks_created_payload : Fresh → Upload → List Chunk → ChunksCreated
chunks_created_payload fresh u chunks = record {
  file_id = fresh.file_id;
  chunks = chunks_payload chunks;
  owner_id = u.owner_id;
}

-- the statements of the transaction
unfoldable pub record_upload : Fresh → Upload → List Chunk → Option File → Db → Result Db
record_upload fresh u chunks existing db = do
  created ← create_file (file_of fresh u) (drop_existing existing db)
  stored ←
      with_chunks chunks (record created { tags = insert_tags fresh.file_id u.tags created.tags })
  (_, emitted) ← emit_file_created fresh.file_emission (file_payload fresh u existing) stored
  (_, next) ←
      emit_chunks_created fresh.chunks_emission (chunks_created_payload fresh u chunks) emitted
  ok next

-- the chunks of the file that is replaced, read through a connection of its own
unfoldable pub old_chunk_ids : Option File → Db → List String
old_chunk_ids none db = []
old_chunk_ids (some existing) db = map (λ c. c.chunk_id) (get_chunks_by_file existing.file_id db)

unfoldable pub uploaded : Fresh → Upload → Option File → FileMetadata
uploaded fresh u existing = record {
  file_id = fresh.file_id;
  name = u.file_name;
  size = u.file_size;
  tags = u.tags;
  owner_id = u.owner_id;
  created_at = fresh.created_at;
  replaced_file_id = id_of existing;
}

module _ (net : Net) where
  -- an exception cleans up the chunks written and is raised again
  unfoldable pub undo_upload : Fresh → List Chunk → Exception → World → Answer FileMetadata × World
  undo_upload fresh chunks e w =
      (raises e, cleanup_chunks net fresh.now (map (λ c. c.chunk_id) chunks) w)

  unfoldable pub commit_upload :
      Fresh → Upload → List Chunk → Option File → Result Db → World → Answer FileMetadata × World
  commit_upload fresh u chunks existing (err e) w = undo_upload fresh chunks other_exception w
  commit_upload fresh u chunks existing (ok db) w = (
    answer (uploaded fresh u existing),
    cleanup_chunks net fresh.now (old_chunk_ids existing w.db) (record w { db = db }),
  )

  unfoldable pub store_upload : Fresh → Upload → Sent → World → Answer FileMetadata × World
  store_upload fresh u sent w = elim sent.error [
    | some e ↦ undo_upload fresh sent.chunks_metadata e (record w { link = sent.link })
    | none ↦
        let existing = find_by_owner_and_name u.owner_id u.file_name w.db in
        commit_upload fresh u sent.chunks_metadata existing
          (record_upload fresh u sent.chunks_metadata existing w.db) (record w { link = sent.link })
  ]

  unfoldable pub upload_chunks : ℕ → Fresh → Upload → World → Answer FileMetadata × World
  upload_chunks chunk_size fresh u w =
      store_upload fresh u
        (write_chunks net
          (split_into_chunks_with_data net.outside.sha256 fresh chunk_size u.file_data) [] w.link)
        w

  unfoldable pub upload_file : ℕ → Fresh → Upload → World → Answer FileMetadata × World
  upload_file chunk_size fresh u w = elim u.tags [
    | [] ↦ (raises empty_tag_list, w)
    | tag ∷ tags ↦ upload_chunks chunk_size fresh u w
  ]
