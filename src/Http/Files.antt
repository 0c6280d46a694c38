-- ===== src/Http/Files.antt =====
-- controller/routes/file_routes.py, for a user that get_current_user let in.
use redcloud_files.Base.{ℕ, String, Option, none, some, List, [], ◌∷◌, length}
use redcloud_files.Chunkserver.Storage.{Bytes}
use redcloud_files.Chunkserver.Index.{pos}
use redcloud_files.Protocol.Json.{
  Json, int, str, arr, object, Fields, end, field, strings, messages, optional,
}
use redcloud_files.Replication.Database.{Db, File, Chunk}
use redcloud_files.Replication.Emitter.{Emission}
use redcloud_files.ChunkClient.{
  Net, Answer, answer, raises, Exception, file_not_found, unauthorized_access,
  chunkserver_unavailable,
}
use redcloud_files.Repositories.{find_by_owner_and_name}
use redcloud_files.TagService.{
  FileMetadata, SkippedFileInfo, Removal, Reply, invalid_tag_query, raised, replied, query_by_tags,
  add_tags_to_files, remove_tags_from_files,
}
use redcloud_files.FileService.{World, Fresh, upload_file as store_file}
use redcloud_files.FileService.Deletion.{delete_files as remove_files}
use redcloud_files.FileService.Download.{download_file as find_download}
use redcloud_files.Http.{Response, json, coded, http_exception, unhandled, responded}
use redcloud_files.Http.Tags.{parse_tags}

unfoldable pub add_file_response : FileMetadata → Fields
add_file_response f = field "file_id" (str f.file_id) (
    field "name" (str f.name) (
      field "size" (int (pos f.size)) (
        field "tags" (arr (strings f.tags))
          (field "replaced_file_id" (optional f.replaced_file_id) end))))

unfoldable pub file_metadata_response : FileMetadata → Json
file_metadata_response f = object (
    field "file_id" (str f.file_id) (
      field "name" (str f.name) (
        field "size" (int (pos f.size)) (
          field "tags" (arr (strings f.tags))
            (field "owner_id" (str f.owner_id) (field "created_at" (str f.created_at) end))))))

unfoldable pub skipped_file_info : SkippedFileInfo → Json
skipped_file_info s = object (
    field "file_id" (str s.file_id)
      (field "name" (str s.name) (field "current_tags" (arr (strings s.current_tags)) end)))

unfoldable pub with_count : String → List String → Fields → Fields
with_count key file_ids rest =
    field key (int (pos (length file_ids))) (field "file_ids" (arr (strings file_ids)) rest)

abbrev pub ok_with : Fields → Response
ok_with fields = record { status_code = 200; body = json fields }

-- the answer of the tag service, with the text of InvalidTagQueryError
unfoldable pub tag_response : {A : Type 0} → String → (A → Fields) → Reply A → Response
tag_response detail fields invalid_tag_query = coded 400 detail "INVALID_TAG_QUERY"
tag_response detail fields (raised e) = unhandled
tag_response detail fields (replied a) = ok_with (fields a)

-- `file.size` is none where the client sent no length; `read` are the file's bytes
pub record UploadFile : Type 0 where
  pub filename : String
  pub size : Option ℕ
  pub read : Bytes

unfoldable pub size_or_zero : Option ℕ → ℕ
size_or_zero none = 0
size_or_zero (some size) = size

module _ (str_of : Exception → String) (net : Net) (chunk_size : ℕ) (fresh : Fresh) where
  unfoldable pub upload_tagged : UploadFile → String → List String → World → Response × World
  upload_tagged file current_user [] w =
      (http_exception 400 "At least one tag is required for file upload", w)
  upload_tagged file current_user (tag ∷ tags) w =
      let (result, next) =
        store_file net chunk_size fresh
          (record {
            file_name = file.filename;
            file_data = file.read;
            file_size = size_or_zero file.size;
            tags = tag ∷ tags;
            owner_id = current_user;
          })
          w in
      (responded str_of 201 add_file_response result, next)

  unfoldable pub upload_file : UploadFile → String → String → World → Response × World
  upload_file file tags current_user w = upload_tagged file current_user (parse_tags tags) w

unfoldable pub list_files : String → String → String → Db → Response
list_files detail tags current_user db =
    tag_response detail (λ files. field "files" (arr (messages file_metadata_response files)) end)
      (query_by_tags (parse_tags tags) current_user db)

-- An answer that streams the chunks of a file, with its size as Content-Length; or any other.
pub data Downloaded : Type 0 where
  streaming : File → List Chunk → Downloaded
  refused : Response → Downloaded

-- The last branch uses a name that is not there, which raises another exception.
unfoldable pub download_failed : (Exception → String) → Exception → Response
download_failed str_of file_not_found = http_exception 404 (str_of file_not_found)
download_failed str_of unauthorized_access =
    http_exception 403 "You do not have permission to download this file"
download_failed str_of chunkserver_unavailable =
    http_exception 503 "Storage service temporarily unavailable"
download_failed str_of _ = unhandled

unfoldable pub streamed : (Exception → String) → Answer (File × List Chunk) → Downloaded
streamed str_of (answer (file, chunks)) = streaming file chunks
streamed str_of (raises e) = refused (download_failed str_of e)

unfoldable pub download_file : (Exception → String) → String → String → Db → Downloaded
download_file str_of file_id current_user db =
    streamed str_of (find_download file_id current_user db)

unfoldable pub download_found : (Exception → String) → Option File → String → Db → Downloaded
download_found str_of none current_user db = refused (download_failed str_of file_not_found)
download_found str_of (some file) current_user db =
    streamed str_of (find_download file.file_id current_user db)

unfoldable pub download_file_by_name : (Exception → String) → String → String → Db → Downloaded
download_file_by_name str_of filename current_user db =
    download_found str_of (find_by_owner_and_name current_user filename db) current_user db

module _ (str_of : Exception → String) (net : Net) (emissions : String → Emission) where
  unfoldable pub delete_files : String → String → String → World → Response × World
  delete_files now tags current_user w =
      let (result, next) = remove_files net emissions now (parse_tags tags) current_user w in
      (responded str_of 200 (λ ids. with_count "deleted_count" ids end) result, next)

module _ (detail : String) (emissions : String → Emission) where
  unfoldable pub add_tags : List String → List String → String → Db → Response × Db
  add_tags query_tags new_tags current_user db =
      let (result, next) = add_tags_to_files emissions query_tags new_tags current_user db in
      (tag_response detail (λ ids. with_count "updated_count" ids end) result, next)

  unfoldable pub delete_tags : List String → List String → String → Db → Response × Db
  delete_tags query_tags tags_to_remove current_user db =
      let (result, next) =
        remove_tags_from_files emissions query_tags tags_to_remove current_user db in
      (
        tag_response detail
            (λ (r : Removal).
              with_count "updated_count" r.updated_file_ids
                (field "skipped_files" (arr (messages skipped_file_info r.skipped_files)) end))
            result,
        next,
      )
