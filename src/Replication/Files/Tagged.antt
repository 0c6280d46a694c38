-- ===== src/Replication/Files/Tagged.antt =====
-- FILE_CREATED keeps a tag on every file.
use redcloud_files.Base.{
  String, Bool, true, Option, some, none, List, [], ◌∷◌, ◌++◌, ◌≡◌, ◌≢◌, refl, arith, str_eq,
  str_lt, find, update, delete, All-append, All-map, Bool-cases, inl, inr,
}
use redcloud_files.Replication.Operation.{Operation, Payload, FileCreated}
use redcloud_files.Replication.Database.{Db, File, Tag, Tombstone, Result, ok, err}
use redcloud_files.Replication.Log.{mark_operation_applied, merge_vector_clock}
use redcloud_files.Replication.Users.{committed, finish, skip}
use redcloud_files.Replication.Files.{
  Created, created_of, settle_file, settle_among, create_file, pass_tombstone, is_file_at, tag_of,
  insert_tags, insert_file, replace_file, overwritten, is_tombstone_at,
}
use redcloud_files.Replication.Files.Labels.{has_tag, insert_tags_mono, insert_tags_some}
use redcloud_files.Replication.Files.Rows.{
  IsDistinct, IsDistinct-snoc, IsDistinct-update, AllTagged, AllTagged-update,
}

abbrev pub TaggedRows : List File → List Tag → Type 0
TaggedRows files tags = IsDistinct files × AllTagged tags files

-- the unique constraints of `files` hold, and every file has a tag
abbrev pub IsTagged : Db → Type 0
IsTagged db = TaggedRows db.files db.tags

-- tables with the same files, where each file that had a tag has one
pub retag :
    (files : List File) (tags tags' : List Tag)
    → ((id : String) → has_tag id tags ≡ true → has_tag id tags' ≡ true)
    → AllTagged tags files
    → AllTagged tags' files
retag files tags tags' k = All-map files (λ f. k f.file_id)

pub TaggedRows-cong :
    {files files' : List File} {tags tags' : List Tag}
    → (files' ≡ files) × (tags' ≡ tags)
    → TaggedRows files tags
    → TaggedRows files' tags'
TaggedRows-cong {files} {files'} {tags} {tags'} e h = rw (e.0, e.1) h

module _ (db : Db) (t : IsTagged db) where
  inserted-IsTagged :
      (p : FileCreated) {db' : Db} → p.tags ≢ [] → insert_file p db ≡ ok db' → IsTagged db'
  unfolding insert_file
  inserted-IsTagged p {db'} some_tag e =
      let row : File = record {
        file_id = p.file_id;
        name = p.name;
        size = p.size;
        owner_id = p.owner_id;
        created_at = p.created_at;
      } in
      TaggedRows-cong {files = db.files ++ row ∷ []} {tags = insert_tags p.file_id p.tags db.tags}
        (ground arith)
        (
          IsDistinct-snoc row db.files (ground arith) t.0,
          All-append _ db.files (row ∷ [])
              (retag db.files db.tags _ (λ id. insert_tags_mono p.file_id p.tags id db.tags) t.1)
              (insert_tags_some p.file_id p.tags db.tags some_tag, tt),
        )

  replaced-IsTagged :
      (p : FileCreated) (existing : File) {db' : Db}
      → p.tags ≢ []
      → find (is_file_at p.owner_id p.name) db.files ≡ some existing
      → replace_file p existing.file_id db ≡ ok db'
      → IsTagged db'
  unfolding replace_file
  replaced-IsTagged p existing {db'} some_tag found e =
      TaggedRows-cong {files = update (is_file_at p.owner_id p.name) (overwritten p) db.files}
        {tags = insert_tags p.file_id p.tags (delete (tag_of existing.file_id) db.tags)}
        (ground arith)
        (
          IsDistinct-update p db.files (ground arith) t.0,
          AllTagged-update p existing db.tags some_tag db.files found t.0 t.1,
        )

  module _ (now : String) (likes : String → Payload → Bool) (op : Operation) (p : FileCreated) where
    skip-IsTagged :
        (lost : Option String) {c : Created} → created_of lost (skip op db) ≡ ok c → IsTagged c.db
    unfolding skip mark_operation_applied
    skip-IsTagged lost {c} e = TaggedRows-cong {files = db.files} {tags = db.tags} (ground arith) t

    commit-IsTagged :
        (r : Result Db) {c : Created}
        → ((x : Db) → r ≡ ok x → IsTagged x)
        → created_of none (committed now op r) ≡ ok c
        → IsTagged c.db
    unfolding finish mark_operation_applied merge_vector_clock
    commit-IsTagged (ok x) {c} h e =
        TaggedRows-cong {files = x.files} {tags = x.tags} (ground arith) (h x refl)
    commit-IsTagged (err x) {c} h e = cc

    settle_file-IsTagged :
        (existing : File) (winner : Option Operation) {c : Created}
        → p.tags ≢ []
        → find (is_file_at p.owner_id p.name) db.files ≡ some existing
        → settle_file now likes op p existing.file_id winner db ≡ ok c
        → IsTagged c.db
    unfolding settle_file
    settle_file-IsTagged existing none {c} some_tag found e = cc
    settle_file-IsTagged existing (some winner) {c} some_tag found e =
        elim (Bool-cases (str_eq winner.operation_id op.operation_id)) [
          | inl won ↦
              commit-IsTagged (replace_file p existing.file_id db) {c = c}
                (λ x. replaced-IsTagged p existing {db' = x} some_tag found) (rw won at e)
          | inr lost ↦ skip-IsTagged (some p.file_id) {c = c} (rw lost at e)
        ]

    settle_among-IsTagged :
        (existing : File) (ids : List String) {c : Created}
        → p.tags ≢ []
        → find (is_file_at p.owner_id p.name) db.files ≡ some existing
        → settle_among now likes op p existing.file_id ids db ≡ ok c
        → IsTagged c.db
    unfolding settle_among
    settle_among-IsTagged existing [] {c} some_tag found e = skip-IsTagged none {c = c} e
    settle_among-IsTagged existing (id ∷ ids) {c} some_tag found e =
        settle_file-IsTagged existing _ {c = c} some_tag found e

    create_file-IsTagged :
        (o : Option File) {c : Created}
        → p.tags ≢ []
        → find (is_file_at p.owner_id p.name) db.files ≡ o
        → create_file now likes op p o db ≡ ok c
        → IsTagged c.db
    unfolding create_file
    create_file-IsTagged none {c} some_tag found e =
        commit-IsTagged (insert_file p db) {c = c} (λ x. inserted-IsTagged p {db' = x} some_tag) e
    create_file-IsTagged (some existing) {c} some_tag found e =
        settle_among-IsTagged existing _ {c = c} some_tag found e

pub pass_tombstone-IsTagged :
    (now : String) (likes : String → Payload → Bool) (op : Operation) (p : FileCreated)
    (o : Option Tombstone) (db : Db) {c : Created}
    → p.tags ≢ []
    → IsTagged db
    → pass_tombstone now likes op p o db ≡ ok c
    → IsTagged c.db
unfolding pass_tombstone
pass_tombstone-IsTagged now likes op p none db {c} some_tag t e =
    create_file-IsTagged db t now likes op p _ {c = c} some_tag refl e
pass_tombstone-IsTagged now likes op p (some tombstone) db {c} some_tag t e =
    elim (Bool-cases (str_lt p.created_at tombstone.deleted_at)) [
      | inl older ↦ skip-IsTagged db t now likes op p none {c = c} (rw older at e)
      | inr newer ↦
          create_file-IsTagged
            (record db {
              file_tombstones = delete (is_tombstone_at p.owner_id p.name) db.file_tombstones;
            })
            t now likes op p _ {c = c} some_tag refl (rw newer at e)
    ]
