-- ===== src/FileService/RoundTrip.antt =====
-- What is uploaded is what is downloaded.
use redcloud_files.Base.{
  ℕ, zero, suc, ◌<◌, String, Bool, false, Option, none, some, List, [], ◌∷◌, ◌++◌, map, length, ◌≡◌,
  ◌≢◌, refl, ap, sym, ◌∙◌, arith, All, All-map, str_eq, eq_refl, select, exists, sort_by,
}
use redcloud_files.Base.Sorted.{IsOrder, All-sort_by}
use redcloud_files.Chunkserver.Storage.{Bytes, pieces}
use redcloud_files.Chunkserver.Storage.Pieces.{concat, pieces-whole}
use redcloud_files.Chunkserver.Server.{Server}
use redcloud_files.ChunkClient.{Net, answer}
use redcloud_files.ChunkClient.Stored.{IsHeld, quiet}
use redcloud_files.Replication.Database.{Db, File, Chunk, ok}
use redcloud_files.Repositories.{
  find_by_owner_and_name, get_by_id, get_chunks_by_file, chunk_of, index_lt,
}
use redcloud_files.FileService.{
  World, Fresh, Split, Upload, number_chunks, split_into_chunks_with_data, file_of, record_upload,
  old_chunk_ids, uploaded, commit_upload, store_upload, upload_chunks, upload_file,
}
use redcloud_files.FileService.Download.{
  owned, with_data, and_then, download_file, stream_file_data,
}
use redcloud_files.FileService.Sending.{
  chunks_of, stored_all, write_chunks_stored, stored_all-IsHeld, stream_file_data_held,
  number_chunks-sums, number_chunks-bytes, sort_by-number_chunks,
}
use redcloud_files.FileService.Recorded.{IsRecorded, IsNew, record_upload-IsRecorded}
use redcloud_files.FileService.Quiet.{deleted_all, deleted_all_other, cleanup_chunks-quiet}

index_order : IsOrder index_lt
index_order = record { negtrans = λ x y z g h. ground arith; asymm = λ x y h. ground arith }

-- the chunks found for a file are among the rows
module _ (c : Chunk) where
  abbrev Other : Chunk → Type 0
  Other row = str_eq row.chunk_id c.chunk_id ≡ false

  others : (p : Chunk → Bool) (rows : List Chunk) → IsNew rows c → All Other (select p rows)
  unfolding exists select
  others p [] h = tt
  others p (row ∷ rows) h = ground (arith, others p rows)

  All-ids :
      (rows : List Chunk)
      → All Other rows
      → All (λ id. str_eq id c.chunk_id ≡ false) (map (λ (r : Chunk). r.chunk_id) rows)
  All-ids [] h = tt
  All-ids (row ∷ rows) h = (h.0, All-ids rows h.1)

  old_chunk_ids_other :
      (existing : Option File) (db : Db)
      → IsNew db.chunks c
      → All (λ id. str_eq id c.chunk_id ≡ false) (old_chunk_ids existing db)
  unfolding old_chunk_ids get_chunks_by_file
  old_chunk_ids_other none db h = tt
  old_chunk_ids_other (some existing) db h =
      All-ids _
        (All-sort_by index_lt index_order Other _ (others (chunk_of existing.file_id) db.chunks h))

-- cleaning up other chunks leaves those of the file
still_held :
    (net : Net) (ids : List String) (splits : List Split) (server : Server)
    → All (λ c. All (λ id. str_eq id c.chunk_id ≡ false) ids) (chunks_of splits)
    → All (λ s. IsHeld s.chunk.chunk_id s.bytes server) splits
    → All (λ s. IsHeld s.chunk.chunk_id s.bytes (deleted_all net.outside ids server)) splits
still_held net ids [] server d h = tt
still_held net ids (s ∷ rest) server d h = (
  deleted_all_other net.outside ids s.chunk.chunk_id s.bytes server d.0 h.0,
  still_held net ids rest server d.1 h.1,
)

select-append :
    (p : Chunk → Bool) (xs ys : List Chunk)
    → exists p xs ≡ false
    → select p (xs ++ ys) ≡ select p ys
unfolding exists select
select-append p [] ys h = refl
select-append p (x ∷ xs) ys h = ground (arith, select-append p xs ys)

module _ (sha256 : Bytes → String) (fresh : Fresh) where
  select-number_chunks :
      (k : ℕ) (parts : List Bytes)
      → select (chunk_of fresh.file_id) (chunks_of (number_chunks sha256 fresh k parts))
        ≡ chunks_of (number_chunks sha256 fresh k parts)
  unfolding select number_chunks
  select-number_chunks k [] = refl
  select-number_chunks k (bytes ∷ rest) =
      ground (arith, eq_refl fresh.file_id, select-number_chunks (suc k) rest)

  -- the rows of the new file, in order
  rows_found :
      (before : List Chunk) (parts : List Bytes) (db : Db)
      → exists (chunk_of fresh.file_id) before ≡ false
      → db.chunks ≡ before ++ chunks_of (number_chunks sha256 fresh 0 parts)
      → get_chunks_by_file fresh.file_id db ≡ chunks_of (number_chunks sha256 fresh 0 parts)
  unfolding get_chunks_by_file
  rows_found before parts db h e =
      ap (λ rows. sort_by index_lt (select (chunk_of fresh.file_id) rows)) e
      ∙ ap (sort_by index_lt)
          (select-append (chunk_of fresh.file_id) before _ h ∙ select-number_chunks 0 parts)
      ∙ sort_by-number_chunks sha256 fresh 0 parts

abbrev pub splits_of : Net → ℕ → Fresh → Upload → List Split
splits_of net chunk_size fresh u =
    split_into_chunks_with_data net.outside.sha256 fresh chunk_size u.file_data

-- A file without tags is refused, and else the chunks are written.
pub tagged_upload :
    (net : Net) (chunk_size : ℕ) (fresh : Fresh) (u : Upload) (w : World) (tags : List String)
    → u.tags ≡ tags
    → tags ≢ []
    → upload_file net chunk_size fresh u w ≡ upload_chunks net chunk_size fresh u w
unfolding upload_file
tagged_upload net chunk_size fresh u w [] e h = absurd (h refl)
tagged_upload net chunk_size fresh u w (tag ∷ tags) e h = rw e

with_data_some :
    (file : File) (chunks : List Chunk)
    → chunks ≢ []
    → with_data file chunks ≡ answer (file, chunks)
unfolding with_data
with_data_some file [] h = absurd (h refl)
with_data_some file (c ∷ chunks) h = refl

whole_file :
    (chunk_size : ℕ) (bytes : Bytes)
    → 0 < chunk_size
    → concat (pieces (suc (length bytes)) chunk_size bytes) ≡ bytes
whole_file zero bytes h = absurd (omega arith)
whole_file (suc n) bytes h = (pieces-whole (suc (length bytes)) n bytes (omega arith)).0

some_chunks :
    (sha256 : Bytes → String) (fresh : Fresh) (parts : List Bytes)
    → concat parts ≢ []
    → chunks_of (number_chunks sha256 fresh 0 parts) ≢ []
unfolding number_chunks
some_chunks sha256 fresh [] h = λ e. h refl
some_chunks sha256 fresh (p ∷ parts) h = λ e. cc

-- An upload in which no call fails and whose transaction breaks no constraint.
module _ (net : Net) (chunk_size : ℕ) (fresh : Fresh) (u : Upload) (w : World) (server : Server)
    (db : Db) (piece_pos : 0 < net.piece_size) (chunk_pos : 0 < chunk_size) (tagged : u.tags ≢ [])
    (link : w.link ≡ quiet server)
    (recorded : record_upload fresh u
        (chunks_of (splits_of net chunk_size fresh u))
        (find_by_owner_and_name u.owner_id u.file_name w.db)
        w.db
      ≡ ok db) where
  abbrev splits : List Split
  splits = splits_of net chunk_size fresh u

  abbrev old : List String
  old = old_chunk_ids (find_by_owner_and_name u.owner_id u.file_name w.db) w.db

  abbrev after : Server
  after = deleted_all net.outside old (stored_all net splits server)

  upload_answers : upload_file net chunk_size fresh u w ≡ (
    answer (uploaded fresh u (find_by_owner_and_name u.owner_id u.file_name w.db)),
    record w { db = db; link = quiet after },
  )
  unfolding upload_chunks store_upload commit_upload split_into_chunks_with_data
  upload_answers =
      tagged_upload net chunk_size fresh u w u.tags refl tagged
      ∙ rw (
        link,
        write_chunks_stored net piece_pos splits [] server
            (number_chunks-sums net.outside.sha256 fresh 0 _),
        recorded,
        cleanup_chunks-quiet net fresh.now old
            (record w { db = db; link = quiet (stored_all net splits server) })
            (stored_all net splits server) refl,
      )

  abbrev facts : IsRecorded (file_of fresh u) u.tags (chunks_of splits) w.db db
  facts =
      record_upload-IsRecorded fresh u (chunks_of splits)
        (find_by_owner_and_name u.owner_id u.file_name w.db) w.db recorded

  All-held : All (λ s. IsHeld s.chunk.chunk_id s.bytes after) splits
  All-held =
      still_held net old splits (stored_all net splits server)
        (All-map (chunks_of splits)
          (λ c n. old_chunk_ids_other c (find_by_owner_and_name u.owner_id u.file_name w.db) w.db n)
          facts.new)
        (stored_all-IsHeld net splits server facts.distinct)

  downloadable :
      u.file_data ≢ []
      → exists (chunk_of fresh.file_id) w.db.chunks ≡ false
      → download_file fresh.file_id u.owner_id db ≡ answer (file_of fresh u, chunks_of splits)
  unfolding download_file and_then owned get_by_id file_of split_into_chunks_with_data
  downloadable some_data unused =
      let parts = pieces (suc (length u.file_data)) chunk_size u.file_data in
      rw
        (
          facts.found,
          eq_refl u.owner_id,
          rows_found net.outside.sha256 fresh w.db.chunks parts db unused facts.rows,
        )
        (with_data_some (file_of fresh u) (chunks_of splits) (
          some_chunks net.outside.sha256 fresh parts
            (λ e. some_data (sym (whole_file chunk_size u.file_data chunk_pos) ∙ e))))

  -- Where no call fails and the transaction breaks no constraint, an upload with a tag answers and
  -- leaves the tables of the transaction; the owner's download then finds the file, and its stream ends
  -- by itself and is the data uploaded, if that is not empty and no chunk row had the new file's id.
  pub download_file-upload_file :
      u.file_data ≢ []
      → exists (chunk_of fresh.file_id) w.db.chunks ≡ false
      → ((upload_file net chunk_size fresh u w).0
          ≡ answer (uploaded fresh u (find_by_owner_and_name u.owner_id u.file_name w.db)))
        × ((upload_file net chunk_size fresh u w).1.db ≡ db)
        × ((chunks : List Chunk) × (download_file fresh.file_id u.owner_id
                (upload_file net chunk_size fresh u w).1.db
              ≡ answer (file_of fresh u, chunks))
            × ((parts : List Bytes) × ((stream_file_data net chunks
                    (upload_file net chunk_size fresh u w).1.link).0
                  ≡ (parts, none))
                × (concat parts ≡ u.file_data)))
  unfolding split_into_chunks_with_data
  download_file-upload_file some_data unused =
      let streamed = stream_file_data_held net piece_pos splits after All-held in
      rw upload_answers (
        refl,
        refl,
        (
          chunks_of splits,
          downloadable some_data unused,
          (
            streamed.0,
            ap (λ s. s.0) streamed.1,
            streamed.2
                ∙ ap concat (number_chunks-bytes net.outside.sha256 fresh 0 _)
                ∙ whole_file chunk_size u.file_data chunk_pos,
          ),
        ),
      )
