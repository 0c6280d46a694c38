-- ===== src/Replication/Files.antt =====
-- operation_applier.py: the handlers of FILE_CREATED and FILE_DELETED.
pub mod Winner
pub mod Ordering
pub mod Rows
pub mod Labels
pub mod Tagged
use redcloud_files.Base.{
  ℕ, String, Bool, true, false, not, ◌&&◌, ◌||◌, Option, none, some, List, [], ◌∷◌, ◌++◌, map, ltb,
  ◌==◌, if◌then◌else◌, str_eq, str_lt, pair_lt, select, find, exists, delete, update, sort_by,
  first,
}
use redcloud_files.Replication.Operation.{
  Operation, Payload, FileCreated, FileDeleted, file_created, is_file_created,
}
use redcloud_files.Replication.Database.{
  Db, File, Tag, Tombstone, Result, ok, err, integrity_error, index_error,
}
use redcloud_files.Replication.Log.{get_operations_by_ids, mark_operation_applied}
use redcloud_files.Replication.Users.{finish, skip, committed}

-- `WHERE owner_id = ? AND name = ?`
abbrev pub is_file_at : String → String → File → Bool
is_file_at owner_id name f = str_eq f.owner_id owner_id && str_eq f.name name

abbrev pub is_tombstone_at : String → String → Tombstone → Bool
is_tombstone_at owner_id name t = str_eq t.owner_id owner_id && str_eq t.name name

abbrev pub is_file : String → File → Bool
is_file file_id f = str_eq f.file_id file_id

abbrev pub tag_of : String → Tag → Bool
tag_of file_id t = str_eq t.file_id file_id

abbrev pub is_tag : String → String → Tag → Bool
is_tag file_id tag t = tag_of file_id t && str_eq t.tag tag

-- INSERT OR IGNORE INTO tags, once for each tag
unfoldable pub insert_tags : String → List String → List Tag → List Tag
insert_tags file_id [] rows = rows
insert_tags file_id (tag ∷ tags) rows = insert_tags file_id tags (
    if exists (is_tag file_id tag) rows
    then rows
    else rows ++ record { file_id = file_id; tag = tag } ∷ [])

-- The FILE_CREATED operations that compete, and the key `(op.timestamp_ms, op.payload["file_id"])`.
-- `payload["file_id"]` of another operation is not read by the program.
abbrev pub payload_file_id : Payload → String
payload_file_id (file_created p) = p.file_id
payload_file_id _ = ""

abbrev pub file_key_lt : Operation → Operation → Bool
file_key_lt a b =
    pair_lt a.timestamp_ms (payload_file_id a.payload) b.timestamp_ms (payload_file_id b.payload)

unfoldable pub resolve_concurrent_file_creation : List Operation → Option Operation
resolve_concurrent_file_creation operations = first (sort_by file_key_lt operations)

-- `op.payload.get("name") == name`
abbrev pub creates_name : String → Payload → Bool
creates_name name (file_created p) = str_eq p.name name
creates_name name _ = false

-- INSERT INTO files: `file_id` and the pair of `owner_id` and `name` are unique
unfoldable pub insert_file : FileCreated → Db → Result Db
insert_file p db =
    if exists (λ f. is_file p.file_id f || is_file_at p.owner_id p.name f) db.files
    then err integrity_error
    else ok (record db {
      files =
          db.files
          ++ record {
            file_id = p.file_id;
            name = p.name;
            size = p.size;
            owner_id = p.owner_id;
            created_at = p.created_at;
          }
            ∷ [];
      tags = insert_tags p.file_id p.tags db.tags;
    })

abbrev pub overwritten : FileCreated → File → File
overwritten p f = record f { file_id = p.file_id; size = p.size; created_at = p.created_at }

-- UPDATE files ... WHERE owner_id = ? AND name = ?, and the tags of the old file go
unfoldable pub replace_file : FileCreated → String → Db → Result Db
replace_file p existing_file_id db =
    if exists (λ f. not (is_file_at p.owner_id p.name f) && is_file p.file_id f) db.files
    then err integrity_error
    else ok (record db {
      files = update (is_file_at p.owner_id p.name) (overwritten p) db.files;
      tags = insert_tags p.file_id p.tags (delete (tag_of existing_file_id) db.tags);
    })

-- A handler's answer with the new tables, and with the `file_id` that it puts in `_skipped_file_ids`.
pub record Created : Type 0 where
  pub success : Bool
  pub db : Db
  pub lost : Option String

abbrev pub created_of : Option String → Result (Bool × Db) → Result Created
created_of lost (ok (success, db)) = ok (record { success = success; db = db; lost = lost })
created_of lost (err e) = err e

-- What SQLite's LIKE finds in the JSON text of a payload is a parameter: `likes name payload` stands
-- for `payload LIKE '%"name": "<name>"%'`.
module _ (now : String) (likes : String → Payload → Bool) where
  pub settle_file : Operation → FileCreated → String → Option Operation → Db → Result Created
  settle_file op p existing_file_id none db = err index_error
  settle_file op p existing_file_id (some winner) db =
      if str_eq winner.operation_id op.operation_id
      then created_of none (committed now op (replace_file p existing_file_id db))
      else created_of (some p.file_id) (skip op db)

  pub competing_ids : FileCreated → Db → List String
  competing_ids p db =
      map (λ o. o.operation_id)
        (select
          (λ o. is_file_created o.payload && str_eq o.user_id p.owner_id && likes p.name o.payload)
          db.operations)

  pub settle_among : Operation → FileCreated → String → List String → Db → Result Created
  settle_among op p existing_file_id [] db = created_of none (skip op db)
  settle_among op p existing_file_id (id ∷ ids) db =
      settle_file op p existing_file_id
        (resolve_concurrent_file_creation (
          select (λ o. creates_name p.name o.payload) (get_operations_by_ids (id ∷ ids) db)
          ++ op ∷ []))
        db

  pub create_file : Operation → FileCreated → Option File → Db → Result Created
  create_file op p none db = created_of none (committed now op (insert_file p db))
  create_file op p (some existing) db = settle_among op p existing.file_id (competing_ids p db) db

  pub pass_tombstone : Operation → FileCreated → Option Tombstone → Db → Result Created
  pass_tombstone op p none db = create_file op p (find (is_file_at p.owner_id p.name) db.files) db
  pass_tombstone op p (some tombstone) db =
      if str_lt p.created_at tombstone.deleted_at
      then created_of none (skip op db)
      else create_file op p (find (is_file_at p.owner_id p.name) db.files) (record db {
        file_tombstones = delete (is_tombstone_at p.owner_id p.name) db.file_tombstones;
      })

  unfoldable pub apply_file_created : Operation → FileCreated → Db → Result Created
  unfolding pass_tombstone create_file settle_among settle_file
  apply_file_created op p db =
      pass_tombstone op p (find (is_tombstone_at p.owner_id p.name) db.file_tombstones) db

-- INSERT OR REPLACE INTO file_tombstones: `file_id` is the primary key
unfoldable pub put_tombstone : Operation → FileDeleted → Db → Db
put_tombstone op p db = record db {
  file_tombstones =
      delete (λ t. str_eq t.file_id p.file_id) db.file_tombstones
      ++ record {
        file_id = p.file_id;
        owner_id = p.owner_id;
        name = p.name;
        deleted_at = p.deleted_at;
        deleted_by_controller_id = p.deleted_by_controller_id;
        operation_id = op.operation_id;
      }
        ∷ [];
}

pub delete_file : String → Operation → FileDeleted → Option File → Db → Result (Bool × Db)
delete_file now op p none db = finish now op (put_tombstone op p db)
delete_file now op p (some existing) db =
    if str_lt p.deleted_at existing.created_at
    then skip op db
    else finish now op
        (put_tombstone op p (record db { files = delete (is_file p.file_id) db.files }))

unfoldable pub apply_file_deleted : String → Operation → FileDeleted → Db → Result (Bool × Db)
unfolding delete_file
apply_file_deleted now op p db =
    delete_file now op p (find (is_file_at p.owner_id p.name) db.files) db
