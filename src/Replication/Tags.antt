-- ===== src/Replication/Tags.antt =====
-- operation_applier.py: the handlers of TAGS_ADDED and TAGS_REMOVED.
pub mod Labels
use redcloud_files.Base.{
  String, Bool, true, false, not, ◌&&◌, Option, none, some, List, [], ◌∷◌, map, if◌then◌else◌,
  str_eq, mem, select, find, exists, delete,
}
use redcloud_files.Replication.Operation.{Operation, TagsChanged}
use redcloud_files.Replication.Database.{Db, File, Tag, Result, ok, err, dependency_not_met}
use redcloud_files.Replication.Users.{finish, skip}
use redcloud_files.Replication.Files.{is_file, tag_of, is_tag, insert_tags}
use Prim.Native.String

unfoldable pub file_dependency : String → String
file_dependency file_id = String.◌++◌ "file:" file_id

pub add_tags : String → Operation → TagsChanged → Option File → Db → Result (Bool × Db)
add_tags now op p none db = err (dependency_not_met (file_dependency p.file_id))
add_tags now op p (some file) db =
    finish now op (record db { tags = insert_tags p.file_id p.tags db.tags })

unfoldable pub apply_tags_added : String → Operation → TagsChanged → Db → Result (Bool × Db)
unfolding add_tags
apply_tags_added now op p db = add_tags now op p (find (is_file p.file_id) db.files) db

-- DELETE FROM tags WHERE file_id = ? AND tag = ?, once for each tag
unfoldable pub delete_tags : String → List String → List Tag → List Tag
delete_tags file_id [] rows = rows
delete_tags file_id (tag ∷ tags) rows = delete_tags file_id tags (delete (is_tag file_id tag) rows)

-- `current_tags - set(tags)` has an element
unfoldable pub has_remaining : String → List String → List Tag → Bool
has_remaining file_id tags rows = exists (λ t. tag_of file_id t && not (mem t.tag tags)) rows

pub remove_tags : String → Operation → TagsChanged → Option File → Db → Result (Bool × Db)
remove_tags now op p none db = err (dependency_not_met (file_dependency p.file_id))
remove_tags now op p (some file) db =
    if has_remaining p.file_id p.tags db.tags
    then finish now op (record db { tags = delete_tags p.file_id p.tags db.tags })
    else skip op db

unfoldable pub apply_tags_removed : String → Operation → TagsChanged → Db → Result (Bool × Db)
unfolding remove_tags
apply_tags_removed now op p db = remove_tags now op p (find (is_file p.file_id) db.files) db
