-- ===== src/Replication/Applier/Tagged.antt =====
-- Every file keeps a tag, whatever operations arrive and in whatever order.
use redcloud_files.Base.{
  String, Bool, true, Option, List, [], ◌≡◌, ◌≢◌, ◌⊎◌, refl, arith, eq_iff, str_eq, delete,
  All-delete, Bool-cases, inl, inr, subst,
}
use redcloud_files.Replication.Operation.{
  Operation, Payload, TagsChanged, user_created, api_key_updated, file_created, file_deleted,
  tags_added, tags_removed, chunks_created, unknown,
}
use redcloud_files.Replication.Database.{Db, File, Result, ok, err}
use redcloud_files.Replication.Log.{mark_operation_applied, merge_vector_clock, insert_operation}
use redcloud_files.Replication.Users.{
  finish, skip, insert_user, replace_user, set_api_key, apply_user_created, apply_api_key_updated,
}
use redcloud_files.Replication.Files.{
  Created, is_file, insert_tags, put_tombstone, apply_file_created, apply_file_deleted,
}
use redcloud_files.Replication.Files.Labels.{has_tag, insert_tags_mono}
use redcloud_files.Replication.Files.Rows.{IsDistinct-delete}
use redcloud_files.Replication.Files.Tagged.{
  TaggedRows, IsTagged, TaggedRows-cong, retag, pass_tombstone-IsTagged,
}
use redcloud_files.Replication.Tags.Labels.{delete_tags_self, delete_tags-other}
use redcloud_files.Replication.Tags.{
  apply_tags_added, apply_tags_removed, delete_tags, has_remaining,
}
use redcloud_files.Replication.Chunks.{apply_chunks_created}
use redcloud_files.Replication.Applier.{
  Node, Env, in_node, dispatch, apply_operation, store_operation,
}
use redcloud_files.Replication.Applier.Keeps.{Rule, Holds, within-Holds}

-- a FILE_CREATED operation carries a tag
abbrev pub CarriesTags : Payload → Type 0
CarriesTags (file_created p) = p.tags ≢ []
CarriesTags _ = Unit

-- what the handlers other than FILE_CREATED's do to the two tables
abbrev Change : Db → Payload → Db → Type 0
Change db (file_deleted p) db' =
    (db'.tags ≡ db.tags)
    × ((db'.files ≡ db.files) ⊎ (db'.files ≡ delete (is_file p.file_id) db.files))
Change db (tags_added p) db' =
    (db'.files ≡ db.files) × (db'.tags ≡ insert_tags p.file_id p.tags db.tags)
Change db (tags_removed p) db' =
    (db'.files ≡ db.files)
    × ((db'.tags ≡ db.tags)
        ⊎ (db'.tags ≡ delete_tags p.file_id p.tags db.tags)
          × (has_remaining p.file_id p.tags db.tags ≡ true))
Change db (file_created p) db' = Unit
Change db _ db' = (db'.files ≡ db.files) × (db'.tags ≡ db.tags)

dispatch-Change :
    (env : Env) (op : Operation) (n : Node) (p : Payload) {b : Bool} {n' : Node}
    → dispatch env op n p ≡ ok (b, n')
    → Change n.db p n'.db
unfolding dispatch apply_user_created apply_api_key_updated apply_file_created apply_file_deleted
    apply_tags_added apply_tags_removed apply_chunks_created insert_user replace_user set_api_key
    put_tombstone finish skip mark_operation_applied merge_vector_clock
dispatch-Change env op n (file_created p) e = tt
dispatch-Change env op n _ e = ground arith

module _ (db : Db) (t : IsTagged db) where
  deleted-rows :
      (files : List File) (q : File → Bool)
      → TaggedRows files db.tags
      → TaggedRows (delete q files) db.tags
  deleted-rows files q h = (IsDistinct-delete q files h.0, All-delete _ q files h.1)

  removed-rows :
      (p : TagsChanged)
      → has_remaining p.file_id p.tags db.tags ≡ true
      → TaggedRows db.files (delete_tags p.file_id p.tags db.tags)
  removed-rows p h = (
    t.0,
    retag db.files db.tags _
        (λ id k. elim (Bool-cases (str_eq p.file_id id)) [
          | inl self ↦
              subst (λ x. has_tag x (delete_tags p.file_id p.tags db.tags) ≡ true)
                ((eq_iff p.file_id id).0 self) (delete_tags_self p.file_id p.tags db.tags h)
          | inr other ↦ delete_tags-other p.file_id p.tags id db.tags other k
        ])
        t.1,
  )

  added-rows : (p : TagsChanged) → TaggedRows db.files (insert_tags p.file_id p.tags db.tags)
  added-rows p =
      (t.0, retag db.files db.tags _ (λ id. insert_tags_mono p.file_id p.tags id db.tags) t.1)

in_node-IsTagged :
    (n : Node) (r : Result Created) {b : Bool} {n' : Node}
    → in_node n r ≡ ok (b, n')
    → ((c : Created) → r ≡ ok c → IsTagged c.db)
    → IsTagged n'.db
in_node-IsTagged n (ok c) {b} {n'} e h =
    TaggedRows-cong {files = c.db.files} {tags = c.db.tags} (ground arith) (h c refl)
in_node-IsTagged n (err x) e h = cc

dispatch-IsTagged :
    (env : Env) (op : Operation) (n : Node) (p : Payload) {b : Bool} {n' : Node}
    → dispatch env op n p ≡ ok (b, n')
    → CarriesTags p
    → IsTagged n.db
    → IsTagged n'.db
dispatch-IsTagged env op n (file_created p) {b} {n'} e q t =
    in_node-IsTagged n (apply_file_created env.now env.likes op p n.db) {b = b} {n' = n'}
      (unfold dispatch in e)
      (λ c.
        unfold apply_file_created in
        pass_tombstone-IsTagged env.now env.likes op p _ n.db {c = c} q t)
dispatch-IsTagged env op n (file_deleted p) {b} {n'} e q t =
    let (same_tags, files) = dispatch-Change env op n (file_deleted p) e in
    elim files [
      | inl same ↦ TaggedRows-cong {files = n.db.files} {tags = n.db.tags} (same, same_tags) t
      | inr gone ↦
          TaggedRows-cong {tags = n.db.tags} (gone, same_tags) (deleted-rows n.db t n.db.files _ t)
    ]
dispatch-IsTagged env op n (tags_added p) {b} {n'} e q t =
    TaggedRows-cong (dispatch-Change env op n (tags_added p) e) (added-rows n.db t p)
dispatch-IsTagged env op n (tags_removed p) {b} {n'} e q t =
    let (same_files, tags) = dispatch-Change env op n (tags_removed p) e in
    elim tags [
      | inl same ↦ TaggedRows-cong {files = n.db.files} {tags = n.db.tags} (same_files, same) t
      | inr (fewer, some_left) ↦
          TaggedRows-cong {files = n.db.files} (same_files, fewer) (removed-rows n.db t p some_left)
    ]
dispatch-IsTagged env op n (user_created p) e q t =
    TaggedRows-cong (dispatch-Change env op n (user_created p) e) t
dispatch-IsTagged env op n (api_key_updated p) e q t =
    TaggedRows-cong (dispatch-Change env op n (api_key_updated p) e) t
dispatch-IsTagged env op n (chunks_created p) e q t =
    TaggedRows-cong (dispatch-Change env op n (chunks_created p) e) t
dispatch-IsTagged env op n (unknown k) e q t =
    TaggedRows-cong (dispatch-Change env op n (unknown k) e) t

stored-IsTagged :
    (now : String) (op : Operation) (db : Db) (o : Option Operation) {db' : Db}
    → store_operation now op db o ≡ ok db'
    → IsTagged db
    → IsTagged db'
unfolding store_operation insert_operation
stored-IsTagged now op db o {db'} e t =
    TaggedRows-cong {files = db.files} {tags = db.tags} (ground arith) t

abbrev pub Carries : Operation → Type 0
Carries op = CarriesTags op.payload

-- If every file has a tag and the constraints of `files` hold, they still do after any operation,
-- retries of waiting operations included, provided that FILE_CREATED operations, the waiting ones too,
-- carry a tag.
pub apply_operation-IsTagged :
    (env : Env) (op : Operation) (n : Node)
    → Carries op
    → Holds IsTagged Carries n
    → Holds IsTagged Carries (apply_operation env op n).1
unfolding apply_operation
apply_operation-IsTagged env = within-Holds env IsTagged-rule 2
  where
    IsTagged-rule : Rule env IsTagged Carries
    IsTagged-rule = record {
      stored = λ op db o {db'} e. stored-IsTagged env.now op db o {db' = db'} e;
      handled = λ op n {b} {n'} e. dispatch-IsTagged env op n op.payload {b = b} {n' = n'} e;
    }
