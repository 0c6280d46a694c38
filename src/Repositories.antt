-- ===== src/Repositories.antt =====
-- controller/repositories: the statements of file_repository.py and chunk_repository.py on the
-- tables, within the transaction of the caller.
use redcloud_files.Base.{
  String, Bool, ◌||◌, Option, List, [], ◌∷◌, ◌++◌, map, ltb, if◌then◌else◌, str_eq, select, find,
  exists, delete, sort_by,
}
use redcloud_files.Replication.Database.{Db, File, Chunk, Result, ok, err, integrity_error}
use redcloud_files.Replication.Files.{is_file, is_file_at}
use redcloud_files.Replication.Chunks.{is_chunk_at}

-- `file_id` and the pair of `owner_id` and `name` are unique
unfoldable pub create_file : File → Db → Result Db
create_file file db =
    if exists (λ f. is_file file.file_id f || is_file_at file.owner_id file.name f) db.files
    then err integrity_error
    else ok (record db { files = db.files ++ file ∷ [] })

unfoldable pub get_by_id : String → Db → Option File
get_by_id file_id db = find (is_file file_id) db.files

unfoldable pub find_by_owner_and_name : String → String → Db → Option File
find_by_owner_and_name owner_id name db = find (is_file_at owner_id name) db.files

unfoldable pub delete_file : String → Db → Db
delete_file file_id db = record db { files = delete (is_file file_id) db.files }

-- `chunk_id` and the pair of `file_id` and `chunk_index` are unique
abbrev pub clashes : Chunk → Chunk → Bool
clashes c row = str_eq row.chunk_id c.chunk_id || is_chunk_at c.file_id c.chunk_index row

unfoldable pub create_chunks : List Chunk → List Chunk → Result (List Chunk)
create_chunks [] rows = ok rows
create_chunks (c ∷ chunks) rows =
    let rest = create_chunks chunks (rows ++ c ∷ []) in
    if exists (clashes c) rows then err integrity_error else rest

abbrev pub chunk_of : String → Chunk → Bool
chunk_of file_id c = str_eq c.file_id file_id

abbrev pub index_lt : Chunk → Chunk → Bool
index_lt a b = ltb a.chunk_index b.chunk_index

-- ORDER BY chunk_index
unfoldable pub get_chunks_by_file : String → Db → List Chunk
get_chunks_by_file file_id db = sort_by index_lt (select (chunk_of file_id) db.chunks)

unfoldable pub delete_chunks : String → Db → List String × Db
delete_chunks file_id db = (
  map (λ c. c.chunk_id) (select (chunk_of file_id) db.chunks),
  record db { chunks = delete (chunk_of file_id) db.chunks },
)
