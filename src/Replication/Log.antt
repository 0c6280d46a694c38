-- ===== src/Replication/Log.antt =====
-- controller/replication/operation_log.py over the `operations` table, and the two helpers of
-- operation_applier.py that write to it and to `vector_clock_state`.
pub mod Marks
pub mod Clock
use redcloud_files.Base.{
  ℕ, zero, suc, ◌+◌, max, String, Bool, true, false, Option, none, some, List, [], ◌∷◌, ◌++◌, map,
  ltb, ◌==◌, if◌then◌else◌, str_eq, mem, select, find, update, sort_by, take,
}
use redcloud_files.Base.Dict
use redcloud_files.Base.Dict.{Dict}
use redcloud_files.Replication.Operation.{Operation, operation_type}
use redcloud_files.Replication.Database.{Db, ClockRow, Result, ok, err, integrity_error}

-- `WHERE operation_id = ?`
abbrev pub has_id : String → Operation → Bool
has_id operation_id op = str_eq op.operation_id operation_id

unfoldable pub get_operation_by_id : String → Db → Option Operation
get_operation_by_id operation_id db = find (has_id operation_id) db.operations

-- `created_at` is the time of the call; an operation that is there already breaks the primary key
unfoldable pub insert_operation : String → Operation → Db → Result Db
insert_operation now op db = elim (get_operation_by_id op.operation_id db) [
  | none ↦ ok (record db { operations = db.operations ++ (record op { created_at = now }) ∷ [] })
  | some _ ↦ err integrity_error
]

-- `ORDER BY timestamp_ms DESC`, `ORDER BY timestamp_ms ASC`
abbrev pub later : Operation → Operation → Bool
later a b = ltb b.timestamp_ms a.timestamp_ms

abbrev pub earlier : Operation → Operation → Bool
earlier a b = ltb a.timestamp_ms b.timestamp_ms

pub get_recent_operations : ℕ → Db → List Operation
get_recent_operations limit db = take limit (sort_by later db.operations)

pub record OperationSummary : Type 0 where
  pub operation_id : String
  pub operation_type : String
  pub user_id : String
  pub timestamp_ms : ℕ
  pub vector_clock : Dict ℕ

summarise : Operation → OperationSummary
summarise op = record {
  operation_id = op.operation_id;
  operation_type = operation_type op.payload;
  user_id = op.user_id;
  timestamp_ms = op.timestamp_ms;
  vector_clock = op.vector_clock;
}

pub get_recent_operation_summaries : ℕ → Db → List OperationSummary
get_recent_operation_summaries limit db = map summarise (get_recent_operations limit db)

unfoldable pub get_all_operation_ids : Db → List String
get_all_operation_ids db = map (λ op. op.operation_id) db.operations

unfoldable pub get_operations_by_ids : List String → Db → List Operation
get_operations_by_ids operation_ids db =
    select (λ op. mem op.operation_id operation_ids) db.operations

unfoldable pub get_operations_for_user : String → Db → List Operation
get_operations_for_user user_id db =
    sort_by earlier (select (λ op. str_eq op.user_id user_id) db.operations)

unfoldable pub set_applied : Operation → Operation
set_applied op = record op { applied = 1 }

unfoldable pub mark_operation_applied : String → Db → Db
mark_operation_applied operation_id db = record db {
  operations = update (has_id operation_id) set_applied db.operations;
}

-- the `sequence` of a row, or 0
unfoldable pub sequence_of : Dict ClockRow → String → ℕ
sequence_of table controller_id = elim (Dict.lookup controller_id table) [
  | none ↦ 0
  | some row ↦ row.sequence
]

-- _merge_vector_clock: one upsert for each entry of the remote clock
unfoldable pub merge_clock_rows : String → Dict ℕ → Dict ClockRow → Dict ClockRow
merge_clock_rows now [] table = table
merge_clock_rows now ((controller_id, sequence) ∷ rest) table = merge_clock_rows now rest (
    Dict.insert controller_id
      (record { sequence = max (sequence_of table controller_id) sequence; last_seen_at = now })
      table)

unfoldable pub merge_vector_clock : String → Dict ℕ → Db → Db
merge_vector_clock now vector_clock db = record db {
  vector_clock_state = merge_clock_rows now vector_clock db.vector_clock_state;
}
