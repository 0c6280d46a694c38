-- ===== src/FileService/Removed.antt =====
-- What the deletion of files leaves: their chunk rows stay.
use redcloud_files.Base.{
  String, Bool, false, Option, List, [], ◌∷◌, map, ◌≡◌, ◌⊎◌, refl, ap, sym, ◌∙◌, arith, All,
  All-map, subst, str_eq, exists, exists-delete, delete,
}
use redcloud_files.Chunkserver.Peers.Buried.{IsBuried}
use redcloud_files.ChunkClient.{Net, Answer, answer, raises}
use redcloud_files.Replication.Database.{Db, File, Result, ok, err}
use redcloud_files.Replication.Log.{insert_operation}
use redcloud_files.Replication.Files.{is_file}
use redcloud_files.Replication.Emitter.{
  Emission, emit, emit_file_deleted, with_id, get_and_increment_vector_clock,
}
use redcloud_files.Replication.ChunkGc.{ChunkLiveness, gc_round}
use redcloud_files.Replication.ChunkGc.Quorum.{refers, gc_round-IsOrphan}
use redcloud_files.Queries.{query_by_tags_and_owner}
use redcloud_files.Repositories.{delete_file}
use redcloud_files.FileService.{World}
use redcloud_files.FileService.Cleanup.{
  IsMarked, Removing, cleanup_chunks-db, cleanup_chunks_complete,
}
use redcloud_files.FileService.Deletion.{
  chunks_to_delete, after_emission, delete_rows, commit_deletion, delete_files,
}

emit_rows :
    (e : Emission) (file_id owner_id name deleted_at : String) (ids : List String) (db : Db)
    {i : String} {next : Db}
    → emit_file_deleted e file_id owner_id name deleted_at ids db ≡ ok (i, next)
    → (next.files ≡ db.files) × (next.chunks ≡ db.chunks) × (next.tags ≡ db.tags)
unfolding emit_file_deleted emit with_id insert_operation get_and_increment_vector_clock
emit_rows e file_id owner_id name deleted_at ids db h = ground arith

abbrev pub IsGone : Db → File → Type 0
IsGone db file = exists (is_file file.file_id) db.files ≡ false

-- the files are gone, those that were gone stay so, and the other two tables are as they were
record IsRemoved (files : List File) (before after : Db) : Type 0 where
  gone : All (IsGone after) files
  still :
      (file_id : String)
      → exists (is_file file_id) before.files ≡ false
      → exists (is_file file_id) after.files ≡ false
  chunks : after.chunks ≡ before.chunks
  tags : after.tags ≡ before.tags

abbrev Removes : List File → Db → Result Db → Type 0
Removes files before (ok after) = IsRemoved files before after
Removes files before (err e) = Unit {0}

delete-none :
    (file_id : String) (files : List File)
    → exists (is_file file_id) (delete (is_file file_id) files) ≡ false
unfolding exists delete
delete-none file_id [] = refl
delete-none file_id (f ∷ files) = ground (arith, delete-none file_id files)

one_more :
    (file : File) (files : List File) (before next : Db) (o : Result Db)
    → (next.files ≡ before.files) × (next.chunks ≡ before.chunks) × (next.tags ≡ before.tags)
    → Removes files (delete_file file.file_id next) o
    → Removes (file ∷ files) before o
unfolding delete_file
one_more file files before next (err e) same r = tt
one_more file files before next (ok after) same r = record {
  gone = (r.still file.file_id (delete-none file.file_id next.files), r.gone);
  still = λ id h. r.still id (
      exists-delete (is_file id) (is_file file.file_id) next.files
        (ap (exists (is_file id)) same.0 ∙ h));
  chunks = r.chunks ∙ same.1;
  tags = r.tags ∙ same.2;
}

after_emission-Removes :
    (file : File) (files : List File) (before : Db) (rest : Db → Result Db)
    (o : Result (String × Db))
    → ((i : String) (next : Db)
        → o ≡ ok (i, next)
        → (next.files ≡ before.files) × (next.chunks ≡ before.chunks) × (next.tags ≡ before.tags))
    → ((db : Db) → Removes files db (rest db))
    → Removes (file ∷ files) before (after_emission file.file_id rest o)
unfolding after_emission
after_emission-Removes file files before rest (err e) same k = tt
after_emission-Removes file files before rest (ok (i, next)) same k =
    one_more file files before next _ (same i next refl) (k (delete_file file.file_id next))

delete_rows-Removes :
    (emissions : String → Emission) (before : Db) (files : List File) (db : Db)
    → Removes files db (delete_rows emissions before files db)
unfolding delete_rows
delete_rows-Removes emissions before [] db = record {
  gone = tt;
  still = λ id h. h;
  chunks = refl;
  tags = refl;
}
delete_rows-Removes emissions before (file ∷ files) db =
    after_emission-Removes file files db (delete_rows emissions before files) _
      (λ i next.
        emit_rows (emissions file.file_id) file.file_id file.owner_id file.name
          (emissions file.file_id).now _ db)
      (delete_rows-Removes emissions before files)

-- what delete_files leaves in the tables, on both of its branches
abbrev Leaves : List File → World → Answer (List String) × World → Type 0
Leaves files before (raises e, next) = next ≡ before
Leaves files before (answer ids, next) =
    (ids ≡ map (λ (f : File). f.file_id) files)
    × All (IsGone next.db) files
    × (next.db.chunks ≡ before.db.chunks)
    × (next.db.tags ≡ before.db.tags)

-- and what becomes of the chunks
abbrev pub Deletes : List File → World → Answer (List String) × World → Type 0
Deletes files before (raises e, next) = next ≡ before
Deletes files before (answer ids, next) =
    (ids ≡ map (λ (f : File). f.file_id) files)
    × All (IsGone next.db) files
    × (next.db.chunks ≡ before.db.chunks)
    × (next.db.tags ≡ before.db.tags)
    × All (λ id. IsBuried id next.link.server.chunks ⊎ IsMarked id next.liveness)
        (chunks_to_delete files before.db)

commit_deletion-Leaves :
    (net : Net) (emissions : String → Emission) (now : String) (files : List File) (w : World)
    (o : Result Db)
    → Removes files w.db o
    → Leaves files w (commit_deletion net emissions now files o w)
unfolding commit_deletion
commit_deletion-Leaves net emissions now files w (err e) r = refl
commit_deletion-Leaves net emissions now files w (ok db) r =
    let same = cleanup_chunks-db net now (chunks_to_delete files w.db) (record w { db = db }) in
    (
      refl,
      subst (λ (d : Db). All (IsGone d) files) (sym same) r.gone,
      ap (λ (d : Db). d.chunks) same ∙ r.chunks,
      ap (λ (d : Db). d.tags) same ∙ r.tags,
    )

commit_deletion-Deletes :
    (net : Net) (emissions : String → Emission) (now : String) (files : List File) (w : World)
    (o : Result Db)
    → Removing w.link
    → w.marking_fails ≡ false
    → Leaves files w (commit_deletion net emissions now files o w)
    → Deletes files w (commit_deletion net emissions now files o w)
unfolding commit_deletion
commit_deletion-Deletes net emissions now files w (err e) rs m r = refl
commit_deletion-Deletes net emissions now files w (ok db) rs m (ids, gone, chunks, tags) = (
  ids,
  gone,
  chunks,
  tags,
  cleanup_chunks_complete net now (chunks_to_delete files w.db) (record w { db = db }) rs m,
)

-- Where the chunkserver does not fail to remove a file and marking does not fail, whatever else becomes
-- of the calls: a delete_files that raises changes nothing, and one that answers names the files of
-- the query, removes their rows, leaves all rows of chunks and tags, and each chunk of the files is
-- deleted on the chunkserver or marked for garbage collection.
pub delete_files-Deletes :
    (net : Net) (emissions : String → Emission) (now : String) (tags : List String)
    (user_id : String) (w : World)
    → Removing w.link
    → w.marking_fails ≡ false
    → Deletes
        (query_by_tags_and_owner tags user_id w.db)
        w
        (delete_files net emissions now tags user_id w)
unfolding delete_files
delete_files-Deletes net emissions now tags user_id w rs m =
    let removed = delete_rows-Removes emissions w.db _ w.db in
    commit_deletion-Deletes net emissions now _ w _ rs m
      (commit_deletion-Leaves net emissions now _ w _ removed)

delete_files-Leaves :
    (net : Net) (emissions : String → Emission) (now : String) (tags : List String)
    (user_id : String) (w : World)
    → Leaves
        (query_by_tags_and_owner tags user_id w.db)
        w
        (delete_files net emissions now tags user_id w)
unfolding delete_files
delete_files-Leaves net emissions now tags user_id w =
    commit_deletion-Leaves net emissions now _ w _ (delete_rows-Removes emissions w.db _ w.db)

rows_stay :
    (files : List File) (w : World) (p : Answer (List String) × World)
    → Leaves files w p
    → p.1.db.chunks ≡ w.db.chunks
rows_stay files w (raises e, next) h = ap (λ (v : World). v.db.chunks) h
rows_stay files w (answer ids, next) (names, gone, rows, tags) = rows

-- A round of garbage collection on exactly the tables that delete_files leaves asks for the deletion of
-- no chunk that had a row before delete_files, so of no chunk of the files it deleted.
pub gc_round-delete_files :
    (net : Net) (emissions : String → Emission) (now : String) (tags : List String)
    (user_id : String) (w : World) (fails : String → Bool) (peers : List (Option Db))
    (table : ChunkLiveness)
    → All
        (λ id. refers id w.db ≡ false)
        (gc_round fails (delete_files net emissions now tags user_id w).1.db peers table).requested
gc_round-delete_files net emissions now tags user_id w fails peers table =
    All-map _
      (λ id orphan.
        ap (λ rows. exists (λ c. str_eq c.chunk_id id) rows)
          (sym (rows_stay _ w _ (delete_files-Leaves net emissions now tags user_id w)))
        ∙ orphan.0)
      (gc_round-IsOrphan fails (delete_files net emissions now tags user_id w).1.db peers table)
