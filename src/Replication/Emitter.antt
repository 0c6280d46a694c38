-- ===== src/Replication/Emitter.antt =====
-- controller/replication/operation_emitter.py: the operations that a controller makes of its own
-- changes, in the transaction that the caller passes.
pub mod Emitted
use redcloud_files.Base.{ℕ, ◌+◌, String, Option, none, some, List}
use redcloud_files.Base.Dict
use redcloud_files.Base.Dict.{Dict}
use redcloud_files.VectorClock.{at}
use redcloud_files.Replication.Operation.{
  Operation, Payload, UserCreated, ApiKeyUpdated, FileCreated, FileDeleted, TagsChanged,
  ChunksCreated, ChunkDescriptor, user_created, api_key_updated, file_created, file_deleted,
  tags_added, tags_removed, chunks_created,
}
use redcloud_files.Replication.Database.{Db, Result, ok, err}
use redcloud_files.Replication.Log.{insert_operation}
use redcloud_files.Replication.Service.{get_current_vector_clock}

-- what a call takes from outside: the id of the controller, a fresh UUID and the time
pub record Emission : Type 0 where
  pub controller_id : String
  pub operation_id : String
  pub timestamp_ms : ℕ
  pub now : String

unfoldable pub get_and_increment_vector_clock : String → String → Db → Dict ℕ × Db
get_and_increment_vector_clock now controller_id db =
    let vector_clock = get_current_vector_clock db in
    let new_seq = at vector_clock controller_id + 1 in
    (
      Dict.insert controller_id new_seq vector_clock,
      record db {
        vector_clock_state =
            Dict.insert controller_id (record { sequence = new_seq; last_seen_at = now })
              db.vector_clock_state;
      },
    )

unfoldable pub with_id : String → Result Db → Result (String × Db)
with_id operation_id (ok db) = ok (operation_id, db)
with_id operation_id (err e) = err e

-- the common body of the functions below
unfoldable pub emit : Emission → Payload → String → Db → Result (String × Db)
emit e payload user_id db =
    let (vector_clock, next) = get_and_increment_vector_clock e.now e.controller_id db in
    with_id e.operation_id (
      insert_operation e.now
        (record {
          operation_id = e.operation_id;
          payload = payload;
          user_id = user_id;
          timestamp_ms = e.timestamp_ms;
          vector_clock = vector_clock;
          applied = 1;
          created_at = e.now;
        })
        next)

unfoldable pub emit_user_created : Emission → UserCreated → Db → Result (String × Db)
emit_user_created e p db = emit e (user_created p) p.user_id db

unfoldable pub emit_api_key_updated : Emission → ApiKeyUpdated → Db → Result (String × Db)
emit_api_key_updated e p db = emit e (api_key_updated p) p.user_id db

unfoldable pub emit_file_created : Emission → FileCreated → Db → Result (String × Db)
emit_file_created e p db = emit e (file_created p) p.owner_id db

unfoldable pub emit_file_deleted :
    Emission → String → String → String → String → List String → Db → Result (String × Db)
emit_file_deleted e file_id owner_id name deleted_at chunk_ids db =
    emit e
      (file_deleted (record {
        file_id = file_id;
        name = name;
        owner_id = owner_id;
        deleted_at = deleted_at;
        deleted_by_controller_id = e.controller_id;
        chunk_ids = chunk_ids;
      }))
      owner_id db

unfoldable pub emit_tags_added : Emission → TagsChanged → Db → Result (String × Db)
emit_tags_added e p db = emit e (tags_added p) p.owner_id db

unfoldable pub emit_tags_removed : Emission → TagsChanged → Db → Result (String × Db)
emit_tags_removed e p db = emit e (tags_removed p) p.owner_id db

unfoldable pub emit_chunks_created : Emission → ChunksCreated → Db → Result (String × Db)
emit_chunks_created e p db = emit e (chunks_created p) p.owner_id db
