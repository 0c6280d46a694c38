-- ===== src/Replication/Chunks.antt =====
-- operation_applier.py: the handler of CHUNKS_CREATED.
use redcloud_files.Base.{
  String, Bool, true, false, ◌&&◌, Option, none, some, List, [], ◌∷◌, ◌++◌, ◌==◌, if◌then◌else◌,
  str_eq, mem, find, exists, ℕ,
}
use redcloud_files.Replication.Operation.{Operation, ChunkDescriptor, ChunksCreated}
use redcloud_files.Replication.Database.{
  Db, File, Chunk, Result, ok, err, integrity_error, dependency_not_met,
}
use redcloud_files.Replication.Users.{finish, skip}
use redcloud_files.Replication.Files.{is_file}
use redcloud_files.Replication.Tags.{file_dependency}

-- `WHERE file_id = ? AND chunk_index = ?`
abbrev pub is_chunk_at : String → ℕ → Chunk → Bool
is_chunk_at file_id chunk_index c = str_eq c.file_id file_id && c.chunk_index == chunk_index

-- INSERT INTO chunks: `chunk_id` is unique; that the index is free has been checked
unfoldable pub insert_chunk : String → ChunkDescriptor → List Chunk → Result (List Chunk)
insert_chunk file_id c rows =
    if exists (λ row. str_eq row.chunk_id c.chunk_id) rows
    then err integrity_error
    else ok (
        rows
        ++ record {
          chunk_id = c.chunk_id;
          file_id = file_id;
          chunk_index = c.chunk_index;
          size = c.size;
          checksum = c.checksum;
        }
          ∷ [])

-- `true` if the loop goes on with the rows, `false` if it ends at a checksum mismatch
unfoldable pub store_chunk :
    String → ChunkDescriptor → Option Chunk → List Chunk → Result (Bool × List Chunk)
store_chunk file_id c (some existing) rows = ok (str_eq existing.checksum c.checksum, rows)
store_chunk file_id c none rows = elim (insert_chunk file_id c rows) [
  | ok rows' ↦ ok (true, rows')
  | err e ↦ err e
]

abbrev pub then_chunks :
    (List Chunk → Result (Bool × List Chunk))
    → Result (Bool × List Chunk)
    → Result (Bool × List Chunk)
then_chunks rest (ok (true, rows)) = rest rows
then_chunks rest (ok (false, rows)) = ok (false, rows)
then_chunks rest (err e) = err e

-- the loop over the chunks
unfoldable pub store_chunks :
    String → List ChunkDescriptor → List Chunk → Result (Bool × List Chunk)
store_chunks file_id [] rows = ok (true, rows)
store_chunks file_id (c ∷ chunks) rows =
    then_chunks (store_chunks file_id chunks)
      (store_chunk file_id c (find (is_chunk_at file_id c.chunk_index) rows) rows)

pub settle_chunks : String → Operation → Db → Result (Bool × List Chunk) → Result (Bool × Db)
settle_chunks now op db (ok (true, rows)) = finish now op (record db { chunks = rows })
settle_chunks now op db (ok (false, rows)) = skip op (record db { chunks = rows })
settle_chunks now op db (err e) = err e

module _ (now : String) (skipped_file_ids : List String) where
  pub create_chunks : Operation → ChunksCreated → Option File → Db → Result (Bool × Db)
  create_chunks op p none db =
      if mem p.file_id skipped_file_ids
      then skip op db
      else err (dependency_not_met (file_dependency p.file_id))
  create_chunks op p (some file) db =
      settle_chunks now op db (store_chunks p.file_id p.chunks db.chunks)

  unfoldable pub apply_chunks_created : Operation → ChunksCreated → Db → Result (Bool × Db)
  unfolding create_chunks settle_chunks
  apply_chunks_created op p db = create_chunks op p (find (is_file p.file_id) db.files) db
