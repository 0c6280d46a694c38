-- ===== src/FileService/Deletion.antt =====
-- file_service.py: deleting the files that match a tag query.
use redcloud_files.Base.{String, List, [], ◌∷◌, ◌++◌, map}
use redcloud_files.ChunkClient.{Net, Answer, answer, raises, other_exception}
use redcloud_files.Replication.Database.{Db, File, Chunk, Result, ok, err}
use redcloud_files.Replication.Emitter.{Emission, emit_file_deleted}
use redcloud_files.Queries.{query_by_tags_and_owner}
use redcloud_files.Repositories.{delete_file, get_chunks_by_file}
use redcloud_files.FileService.{World, cleanup_chunks}

abbrev pub chunk_ids_of : File → Db → List String
chunk_ids_of file db = map (λ (c : Chunk). c.chunk_id) (get_chunks_by_file file.file_id db)

unfoldable pub chunks_to_delete : List File → Db → List String
chunks_to_delete [] db = []
chunks_to_delete (file ∷ files) db = chunk_ids_of file db ++ chunks_to_delete files db

unfoldable pub after_emission : String → (Db → Result Db) → Result (String × Db) → Result Db
after_emission file_id rest (ok (operation_id, db)) = rest (delete_file file_id db)
after_emission file_id rest (err e) = err e

-- The loop over the files, in one transaction. `file_chunks_map` is read before it, from `before`;
-- `emissions` gives the UUID and the time of the operation for a file, and the time of its deletion.
unfoldable pub delete_rows : (String → Emission) → Db → List File → Db → Result Db
delete_rows emissions before [] db = ok db
delete_rows emissions before (file ∷ files) db =
    let e = emissions file.file_id in
    after_emission file.file_id (delete_rows emissions before files)
      (emit_file_deleted e file.file_id file.owner_id file.name e.now (chunk_ids_of file before) db)

module _ (net : Net) (emissions : String → Emission) (now : String) where
  unfoldable pub commit_deletion : List File → Result Db → World → Answer (List String) × World
  commit_deletion files (err e) w = (raises other_exception, w)
  commit_deletion files (ok db) w = (
    answer (map (λ f. f.file_id) files),
    cleanup_chunks net now (chunks_to_delete files w.db) (record w { db = db }),
  )

  unfoldable pub delete_files : List String → String → World → Answer (List String) × World
  delete_files tags user_id w =
      let files = query_by_tags_and_owner tags user_id w.db in
      commit_deletion files (delete_rows emissions w.db files w.db) w
