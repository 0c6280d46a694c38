-- ===== src/Replication/Service.antt =====
-- controller/replication/grpc_service.py: what a controller answers its peers.
pub mod Gossip
pub mod Pushed
use redcloud_files.Base.{
  ℕ, ◌<◌, String, Bool, true, false, not, List, [], ◌∷◌, map, ltb, length, select, str_eq,
  difference, set_of,
}
use redcloud_files.Base.Dict
use redcloud_files.Base.Dict.{Dict}
use redcloud_files.VectorClock.{merge}
use redcloud_files.Replication.Operation.{Operation}
use redcloud_files.Replication.Database.{Db, Chunk, ClockRow, Result, ok, err}
use redcloud_files.Replication.Log.{OperationSummary, get_all_operation_ids, get_operations_by_ids}
use redcloud_files.Replication.Applier.{Env, Node, Outcome, apply_operation}
use redcloud_files.Replication.AntiEntropy.{sort_operations_by_causality}

-- _get_current_vector_clock
unfoldable pub clock_of_rows : Dict ClockRow → Dict ℕ
clock_of_rows [] = []
clock_of_rows ((controller_id, row) ∷ rest) = (controller_id, row.sequence) ∷ clock_of_rows rest

unfoldable pub get_current_vector_clock : Db → Dict ℕ
get_current_vector_clock db = clock_of_rows db.vector_clock_state

-- _update_vector_clock: one upsert for each entry
unfoldable pub put_rows : String → Dict ℕ → Dict ClockRow → Dict ClockRow
put_rows now [] table = table
put_rows now ((controller_id, sequence) ∷ rest) table =
    put_rows now rest
      (Dict.insert controller_id (record { sequence = sequence; last_seen_at = now }) table)

unfoldable pub update_vector_clock : String → Dict ℕ → Db → Db
update_vector_clock now vector_clock db = record db {
  vector_clock_state = put_rows now vector_clock db.vector_clock_state;
}

pub record GossipResponse : Type 0 where
  pub vector_clock : Dict ℕ
  pub missing_operation_ids : List String

-- `my_clock` holds the dict `my_vector_clock` itself, so the answer carries the merged clock.
unfoldable pub handle_gossip : String → Dict ℕ → List OperationSummary → Db → GossipResponse × Db
handle_gossip now vector_clock operation_summaries db =
    let my_vector_clock =
      (merge (record { clocks = get_current_vector_clock db })
        (record { clocks = vector_clock })).clocks in
    let next = update_vector_clock now my_vector_clock db in
    (
      record {
        vector_clock = my_vector_clock;
        missing_operation_ids =
            difference (set_of (map (λ op. op.operation_id) operation_summaries))
              (get_all_operation_ids next);
      },
      next,
    )

unfoldable pub handle_get_state_summary : Db → Dict ℕ × List String
handle_get_state_summary db = (get_current_vector_clock db, get_all_operation_ids db)

unfoldable pub handle_fetch_operations : List String → Db → List Operation
handle_fetch_operations operation_ids db = get_operations_by_ids operation_ids db

-- the loop of PushOperations, which ends at the first call that raises
unfoldable pub push_next : (Node → Bool × Node) → Outcome → Bool × Node
push_next rest (ok applied, n) = rest n
push_next rest (err e, n) = (false, n)

unfoldable pub push_each : Env → List Operation → Node → Bool × Node
push_each env [] n = (true, n)
push_each env (op ∷ ops) n = push_next (push_each env ops) (apply_operation env op n)

-- `success`, and the node
unfoldable pub handle_push_operations : Env → List Operation → Node → Bool × Node
handle_push_operations env operations n = push_each env (sort_operations_by_causality operations) n

pub record QueryChunkLivenessResponse : Type 0 where
  pub is_live : Bool
  pub referenced_by_files : List String

unfoldable pub chunk_rows : String → Db → List Chunk
chunk_rows chunk_id db = select (λ c. str_eq c.chunk_id chunk_id) db.chunks

unfoldable pub handle_query_chunk_liveness : String → Db → QueryChunkLivenessResponse
handle_query_chunk_liveness chunk_id db = record {
  is_live = ltb 0 (length (chunk_rows chunk_id db));
  referenced_by_files = map (λ c. c.file_id) (chunk_rows chunk_id db);
}
