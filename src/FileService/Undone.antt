-- ===== src/FileService/Undone.antt =====
-- What an upload that raises leaves.
use redcloud_files.Chunkserver.Storage.{Bytes}
use redcloud_files.Chunkserver.Server.{Server, ChunkMetadata}
use redcloud_files.Base.{
  Bool, true, false, ◌∷◌, ◌++◌, ℕ, String, Option, none, some, List, [], map, ◌≡◌, ◌≢◌, ◌⊎◌, refl,
  All,
}
use redcloud_files.Chunkserver.Peers.Buried.{IsBuried}
use redcloud_files.ChunkClient.Once.{write_chunk_once}
use redcloud_files.ChunkClient.{
  Fate, answered, raising, lost, cut, metadata_for, next_fate, call_write, write_chunk,
  write_chunk_internal, Net, Link, Answer, answer, raises, Exception, other_exception,
}
use redcloud_files.Replication.Database.{Db, File, Chunk, Result, ok, err}
use redcloud_files.TagService.{FileMetadata}
use redcloud_files.FileService.{
  Sent, Split, after_write, World, Fresh, Upload, write_chunks, undo_upload, commit_upload,
  store_upload, upload_chunks, upload_file,
}
use redcloud_files.FileService.Cleanup.{
  IsMarked, IsRemoval, Removing, cleanup_chunks-db, cleanup_chunks_complete,
}
use redcloud_files.FileService.RoundTrip.{splits_of, tagged_upload}

-- what an upload that raises leaves
abbrev pub IsUndone : List String → World → World → Type 0
IsUndone ids before next =
    (next.db ≡ before.db)
    × All (λ id. IsBuried id next.link.server.chunks ⊎ IsMarked id next.liveness) ids

abbrev Undone : List String → World → Answer FileMetadata × World → Type 0
Undone ids before (answer m, next) = Unit {0}
Undone ids before (raises e, next) = IsUndone ids before next

-- the chunkserver removes the files that it is asked to, and marking does not fail
abbrev pub IsCleaning : World → Type 0
IsCleaning w = Removing w.link × (w.marking_fails ≡ false)

undo_upload-IsUndone :
    (net : Net) (fresh : Fresh) (chunks : List Chunk) (e : Exception) (w : World)
    → IsCleaning w
    → Undone (map (λ (c : Chunk). c.chunk_id) chunks) w (undo_upload net fresh chunks e w)
unfolding undo_upload
undo_upload-IsUndone net fresh chunks e w (rs, m) =
    let ids = map (λ (c : Chunk). c.chunk_id) chunks in
    (cleanup_chunks-db net fresh.now ids w, cleanup_chunks_complete net fresh.now ids w rs m)

commit_upload-Undone :
    (net : Net) (fresh : Fresh) (u : Upload) (chunks : List Chunk) (existing : Option File)
    (result : Result Db) (w : World)
    → IsCleaning w
    → Undone
        (map (λ (c : Chunk). c.chunk_id) chunks)
        w
        (commit_upload net fresh u chunks existing result w)
unfolding commit_upload
commit_upload-Undone net fresh u chunks existing (ok db) w c = tt
commit_upload-Undone net fresh u chunks existing (err e) w c =
    undo_upload-IsUndone net fresh chunks other_exception w c

store_upload-Undone :
    (net : Net) (fresh : Fresh) (u : Upload) (chunks : List Chunk) (error : Option Exception)
    (link : Link) (w : World)
    → Removing link
    → w.marking_fails ≡ false
    → Undone (map (λ (c : Chunk). c.chunk_id) chunks) w (
        store_upload net fresh u
          (record { chunks_metadata = chunks; error = error; link = link })
          w)
unfolding store_upload
store_upload-Undone net fresh u chunks none link w rs m =
    commit_upload-Undone net fresh u chunks _ _ (record w { link = link }) (rs, m)
store_upload-Undone net fresh u chunks (some e) link w rs m =
    undo_upload-IsUndone net fresh chunks e (record w { link = link }) (rs, m)

of_raises :
    (ids : List String) (before : World) (p : Answer FileMetadata × World) {e : Exception}
    → Undone ids before p
    → p.0 ≡ raises e
    → IsUndone ids before p.1
of_raises ids before (answer m, next) h r = absurd (cc)
of_raises ids before (raises e, next) h r = h

next_fate-Removing : (fates : List Fate) → All IsRemoval fates → All IsRemoval (next_fate fates).1
unfolding next_fate
next_fate-Removing [] rs = tt
next_fate-Removing (fate ∷ fates) rs = rs.1

call_write-fates :
    (net : Net) (metadata : ChunkMetadata) (bytes : Bytes) (fate : Fate) (fates : List Fate)
    (server : Server)
    → (call_write net metadata bytes fate fates server).1.fates ≡ fates
unfolding call_write
call_write-fates net metadata bytes (answered fault) fates server = refl
call_write-fates net metadata bytes (raising n) fates server = refl
call_write-fates net metadata bytes (lost code) fates server = refl
call_write-fates net metadata bytes (cut n code) fates server = refl

module _ (net : Net) where
  write_chunk-Removing :
      (c : Chunk) (bytes : Bytes) (link : Link)
      → Removing link
      → Removing (write_chunk net c.chunk_id c.file_id c.chunk_index bytes c.checksum link).1
  unfolding write_chunk_internal
  write_chunk-Removing c bytes link rs =
      let once = write_chunk_once net c.chunk_id c.file_id c.chunk_index bytes c.checksum link in
      let metadata = metadata_for c.chunk_id c.file_id c.chunk_index bytes c.checksum in
      let (fate, fates) = next_fate link.fates in
      rw (once, call_write-fates net metadata bytes fate fates link.server)
        (next_fate-Removing link.fates rs)

  after_write-Removing :
      (go_on : Link → Sent) (sent : List Chunk) (p : Option (Answer Bool) × Link)
      → ((link : Link) → Removing link → Removing (go_on link).link)
      → Removing p.1
      → Removing (after_write go_on sent p).link
  unfolding after_write
  after_write-Removing go_on sent (some (answer true), next) k rs = k next rs
  after_write-Removing go_on sent (some (answer false), next) k rs = rs
  after_write-Removing go_on sent (some (raises e), next) k rs = rs
  after_write-Removing go_on sent (none, next) k rs = rs

  write_chunks-Removing :
      (splits : List Split) (sent : List Chunk) (link : Link)
      → Removing link
      → Removing (write_chunks net splits sent link).link
  unfolding write_chunks
  write_chunks-Removing [] sent link rs = rs
  write_chunks-Removing (s ∷ rest) sent link rs =
      after_write-Removing (write_chunks net rest (sent ++ s.chunk ∷ [])) sent _
        (write_chunks-Removing rest (sent ++ s.chunk ∷ []))
        (write_chunk-Removing s.chunk s.bytes link rs)

-- Where the chunkserver does not fail to remove a file and marking does not fail, whatever else becomes
-- of the calls, an upload with a tag that raises leaves the tables as they were, and each chunk whose
-- write was answered with success is deleted on the chunkserver or marked for garbage collection.
pub upload_file-IsUndone :
    (net : Net) (chunk_size : ℕ) (fresh : Fresh) (u : Upload) (w : World) {e : Exception}
    → Removing w.link
    → w.marking_fails ≡ false
    → u.tags ≢ []
    → (upload_file net chunk_size fresh u w).0 ≡ raises e
    → IsUndone
        (map
          (λ (c : Chunk). c.chunk_id)
          (write_chunks net (splits_of net chunk_size fresh u) [] w.link).chunks_metadata)
        w
        (upload_file net chunk_size fresh u w).1
unfolding upload_chunks
upload_file-IsUndone net chunk_size fresh u w rs m tagged h =
    let same = tagged_upload net chunk_size fresh u w u.tags refl tagged in
    let splits = splits_of net chunk_size fresh u in
    let sent = write_chunks net splits [] w.link in
    let undone =
      store_upload-Undone net fresh u sent.chunks_metadata sent.error sent.link w
        (write_chunks-Removing net splits [] w.link rs) m in
    rw same (of_raises _ w _ undone (rw same at h))
