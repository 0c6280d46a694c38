-- ===== src/Queries.antt =====
-- The tag queries of controller/repositories/file_repository.py and tag_repository.py. A result of
-- SELECT is the list of matching rows, in the order of the table.
pub mod AllTags
use redcloud_files.Base.{
  ℕ, String, Bool, true, false, ◌&&◌, List, [], ◌∷◌, map, length, ◌==◌, str_eq, mem, set_of, select,
  if◌then◌else◌,
}
use redcloud_files.Replication.Database.{Db, File, Tag}

-- the tags of a file among those asked for
unfoldable pub tags_among : String → List String → List Tag → List String
tags_among file_id tags [] = []
tags_among file_id tags (row ∷ rows) =
    let rest = tags_among file_id tags rows in
    if str_eq row.file_id file_id && mem row.tag tags then row.tag ∷ rest else rest

-- HAVING COUNT(DISTINCT t.tag) = ?
unfoldable pub has_all : List String → List Tag → File → Bool
has_all tags rows f = length (set_of (tags_among f.file_id tags rows)) == length tags

-- in the order of the table; GROUP BY f.file_id promises none
unfoldable pub query_by_tags_and_owner : List String → String → Db → List File
query_by_tags_and_owner [] owner_id db = []
query_by_tags_and_owner (tag ∷ tags) owner_id db =
    select (λ f. str_eq f.owner_id owner_id && has_all (tag ∷ tags) db.tags f) db.files

unfoldable pub query_files_by_tags : List String → String → Db → List String
query_files_by_tags tags owner_id db =
    map (λ f. f.file_id) (query_by_tags_and_owner tags owner_id db)
