-- ===== src/Replication/Applier/Effects.antt =====
-- What each handler does to the operation log and to the vector clock table.
use redcloud_files.Base.{String, Bool, true, false, List, ◌≡◌, ◌⊎◌, arith, update}
use redcloud_files.Replication.Operation.{Operation, Payload, user_created}
use redcloud_files.Replication.Database.{Db, ok}
use redcloud_files.Replication.Log.{
  has_id, set_applied, mark_operation_applied, merge_clock_rows, merge_vector_clock,
}
use redcloud_files.Replication.Users.{
  finish, skip, insert_user, replace_user, set_api_key, apply_user_created, apply_api_key_updated,
}
use redcloud_files.Replication.Files.{
  insert_file, replace_file, put_tombstone, apply_file_created, apply_file_deleted,
}
use redcloud_files.Replication.Tags.{apply_tags_added, apply_tags_removed}
use redcloud_files.Replication.Chunks.{apply_chunks_created}
use redcloud_files.Replication.Applier.{Node, Env, dispatch}

-- the log with the operation marked as applied
abbrev pub marked : Operation → Db → List Operation
marked op db = update (has_id op.operation_id) set_applied db.operations

-- An applied operation is marked, and its clock is merged. One that is skipped leaves the clock
-- alone, and is marked too unless its type is unknown.
abbrev pub Effect : String → Operation → Db → Bool → Db → Type 0
Effect now op db success db' =
    (success ≡ true)
      × (db'.operations ≡ marked op db)
      × (db'.vector_clock_state ≡ merge_clock_rows now op.vector_clock db.vector_clock_state)
    ⊎ (success ≡ false)
      × (db'.vector_clock_state ≡ db.vector_clock_state)
      × ((db'.operations ≡ marked op db) ⊎ (db'.operations ≡ db.operations))

pub dispatch-Effect :
    (env : Env) (op : Operation) (n : Node) (p : Payload) {b : Bool} {n' : Node}
    → dispatch env op n p ≡ ok (b, n')
    → Effect env.now op n.db b n'.db
unfolding dispatch apply_user_created apply_api_key_updated apply_file_created apply_file_deleted
    apply_tags_added apply_tags_removed apply_chunks_created insert_user replace_user set_api_key
    insert_file replace_file put_tombstone finish skip mark_operation_applied merge_vector_clock
dispatch-Effect env op n (user_created p) e = ground arith
dispatch-Effect env op n _ e = ground arith
