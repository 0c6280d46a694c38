-- ===== src/TagService.antt =====
-- controller/services/tag_service.py: adding and removing tags of the files that match a query, with
-- the statements of tag_repository.py.
pub mod Additions
pub mod Labels
use redcloud_files.Base.{
  ℕ, ◌-◌, String, Bool, true, false, ◌&&◌, Option, none, some, List, [], ◌∷◌, ◌++◌, length, ◌==◌,
  if◌then◌else◌, mem, select, delete, map, find, sort_by, str_lt,
}
use redcloud_files.Replication.Operation.{TagsChanged}
use redcloud_files.Replication.Database.{Db, File, Tag, Error, Result, ok, err}
use redcloud_files.Replication.Files.{tag_of, is_file, insert_tags}
use redcloud_files.Replication.Emitter.{Emission, emit_tags_added, emit_tags_removed}
use redcloud_files.Queries.{query_files_by_tags, query_by_tags_and_owner}

-- what a call answers or raises
pub data Reply {ℓ} (A : Type ℓ) : Type ℓ where
  invalid_tag_query : Reply A
  raised : Error → Reply A
  replied : A → Reply A

-- DELETE FROM tags WHERE file_id = ? AND tag IN (...)
unfoldable pub delete_tags : String → List String → List Tag → List Tag
delete_tags file_id tags rows = delete (λ t. tag_of file_id t && mem t.tag tags) rows

-- the two counts of would_become_tagless
unfoldable pub total_tags : String → List Tag → ℕ
total_tags file_id rows = length (select (tag_of file_id) rows)

unfoldable pub removed_tags : String → List String → List Tag → ℕ
removed_tags file_id tags rows = length (select (λ t. tag_of file_id t && mem t.tag tags) rows)

unfoldable pub would_become_tagless : String → List String → List Tag → Bool
would_become_tagless file_id tags rows =
    if total_tags file_id rows == 0
    then true
    else (total_tags file_id rows - removed_tags file_id tags rows) == 0

unfoldable pub get_tags_for_file : String → List Tag → List String
get_tags_for_file file_id rows = sort_by str_lt (map (λ t. t.tag) (select (tag_of file_id) rows))

pub record FileMetadata : Type 0 where
  pub file_id : String
  pub name : String
  pub size : ℕ
  pub tags : List String
  pub owner_id : String
  pub created_at : String
  pub replaced_file_id : Option String

unfoldable pub metadata_with_tags : List Tag → File → FileMetadata
metadata_with_tags rows f = record {
  file_id = f.file_id;
  name = f.name;
  size = f.size;
  tags = get_tags_for_file f.file_id rows;
  owner_id = f.owner_id;
  created_at = f.created_at;
  replaced_file_id = none;
}

unfoldable pub query_by_tags : List String → String → Db → Reply (List FileMetadata)
query_by_tags [] user_id db = invalid_tag_query
query_by_tags (t ∷ ts) user_id db =
    replied (map (metadata_with_tags db.tags) (query_by_tags_and_owner (t ∷ ts) user_id db))

-- `emissions` gives the UUID and the time of the operation that is emitted for a file
unfoldable pub continue_with : (Db → Result Db) → Result (String × Db) → Result Db
continue_with rest (ok (operation_id, db)) = rest db
continue_with rest (err e) = err e

unfoldable pub add_to_files :
    (String → Emission) → List String → String → List String → Db → Result Db
add_to_files emissions new_tags user_id [] db = ok db
add_to_files emissions new_tags user_id (file_id ∷ rest) db =
    continue_with (add_to_files emissions new_tags user_id rest) (
      emit_tags_added (emissions file_id)
        (record { file_id = file_id; tags = new_tags; owner_id = user_id })
        (record db { tags = insert_tags file_id new_tags db.tags }))

-- a rollback keeps the database of the call
unfoldable pub committed : {A : Type 0} → Db → Result (A × Db) → Reply A × Db
committed db (ok (a, next)) = (replied a, next)
committed db (err e) = (raised e, db)

unfoldable pub with_answer : {A : Type 0} → A → Result Db → Result (A × Db)
with_answer a (ok db) = ok (a, db)
with_answer a (err e) = err e

unfoldable pub add_tags_to_files :
    (String → Emission) → List String → List String → String → Db → Reply (List String) × Db
add_tags_to_files emissions [] new_tags user_id db = (invalid_tag_query, db)
add_tags_to_files emissions (q ∷ qs) [] user_id db = (invalid_tag_query, db)
add_tags_to_files emissions (q ∷ qs) (t ∷ ts) user_id db =
    let file_ids = query_files_by_tags (q ∷ qs) user_id db in
    committed db (with_answer file_ids (add_to_files emissions (t ∷ ts) user_id file_ids db))

pub record SkippedFileInfo : Type 0 where
  pub file_id : String
  pub name : String
  pub current_tags : List String

-- the two lists that the removal answers
pub record Removal : Type 0 where
  pub updated_file_ids : List String
  pub skipped_files : List SkippedFileInfo

-- `get_by_id` and `get_tags_for_file` read through a connection of their own, so they see the tables
-- before the call.
unfoldable pub skipped : String → Option File → List Tag → List SkippedFileInfo
skipped file_id none rows = []
skipped file_id (some file) rows =
    record { file_id = file_id; name = file.name; current_tags = get_tags_for_file file_id rows }
    ∷ []

unfoldable pub continue_removal :
    (Removal → Db → Result (Removal × Db)) → Removal → Result (String × Db) → Result (Removal × Db)
continue_removal rest r (ok (operation_id, db)) = rest r db
continue_removal rest r (err e) = err e

unfoldable pub remove_from_files :
    (String → Emission)
    → Db
    → List String
    → String
    → List String
    → Removal
    → Db
    → Result (Removal × Db)
remove_from_files emissions before tags_to_remove user_id [] r db = ok (r, db)
remove_from_files emissions before tags_to_remove user_id (file_id ∷ rest) r db =
    let go_on = remove_from_files emissions before tags_to_remove user_id rest in
    if would_become_tagless file_id tags_to_remove db.tags
    then go_on
        (record r {
          skipped_files =
              r.skipped_files ++ skipped file_id (find (is_file file_id) before.files) before.tags;
        })
        db
    else continue_removal go_on (record r { updated_file_ids = r.updated_file_ids ++ file_id ∷ [] })
        (emit_tags_removed (emissions file_id)
          (record { file_id = file_id; tags = tags_to_remove; owner_id = user_id })
          (record db { tags = delete_tags file_id tags_to_remove db.tags }))

unfoldable pub remove_tags_from_files :
    (String → Emission) → List String → List String → String → Db → Reply Removal × Db
remove_tags_from_files emissions [] tags_to_remove user_id db = (invalid_tag_query, db)
remove_tags_from_files emissions (q ∷ qs) [] user_id db = (invalid_tag_query, db)
remove_tags_from_files emissions (q ∷ qs) (t ∷ ts) user_id db = committed db (
    remove_from_files emissions db (t ∷ ts) user_id (query_files_by_tags (q ∷ qs) user_id db)
      (record { updated_file_ids = []; skipped_files = [] }) db)
