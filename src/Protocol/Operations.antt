-- ===== src/Protocol/Operations.antt =====
-- common/protocol.py: the messages between controllers. The payload of an operation is any JSON
-- value here.
pub mod Decoded
use redcloud_files.Base.{ℕ, String, Bool, Option, none, some, List}
use redcloud_files.Base.Dict.{Dict}
use redcloud_files.Chunkserver.Index.{ℤ, pos}
use redcloud_files.Protocol.Json.{
  Json, Items, Fields, null, bool, int, str, arr, object, end, field, ◌>>=◌, get, get_str, get_int,
  get_nat, get_bool, get_optional, optional, strings, get_strs, counters, get_clock, messages,
  get_messages,
}
use redcloud_files.Replication.Log.{OperationSummary}

unfoldable pub operation_summary_to_json : OperationSummary → Json
operation_summary_to_json m = object (
    field "operation_id" (str m.operation_id) (
      field "operation_type" (str m.operation_type) (
        field "user_id" (str m.user_id) (
          field "timestamp_ms" (int (pos m.timestamp_ms))
            (field "vector_clock" (object (counters m.vector_clock)) end)))))

unfoldable pub operation_summary_from_json : Json → Option OperationSummary
operation_summary_from_json obj = do
  operation_id ← get_str "operation_id" obj
  operation_type ← get_str "operation_type" obj
  user_id ← get_str "user_id" obj
  timestamp_ms ← get_nat "timestamp_ms" obj
  vector_clock ← get_clock "vector_clock" obj
  some (record {
    operation_id = operation_id;
    operation_type = operation_type;
    user_id = user_id;
    timestamp_ms = timestamp_ms;
    vector_clock = vector_clock;
  })

pub record Operation : Type 0 where
  pub operation_id : String
  pub operation_type : String
  pub user_id : String
  pub timestamp_ms : ℕ
  pub vector_clock : Dict ℕ
  pub payload : Json
  pub applied : ℕ
  pub created_at : String

unfoldable pub operation_to_json : Operation → Json
operation_to_json m = object (
    field "operation_id" (str m.operation_id) (
      field "operation_type" (str m.operation_type) (
        field "user_id" (str m.user_id) (
          field "timestamp_ms" (int (pos m.timestamp_ms)) (
            field "vector_clock" (object (counters m.vector_clock)) (
              field "payload" (m.payload) (
                field "applied" (int (pos m.applied))
                  (field "created_at" (str m.created_at) end))))))))

unfoldable pub operation_from_json : Json → Option Operation
operation_from_json obj = do
  operation_id ← get_str "operation_id" obj
  operation_type ← get_str "operation_type" obj
  user_id ← get_str "user_id" obj
  timestamp_ms ← get_nat "timestamp_ms" obj
  vector_clock ← get_clock "vector_clock" obj
  payload ← get "payload" obj
  applied ← get_nat "applied" obj
  created_at ← get_str "created_at" obj
  some (record {
    operation_id = operation_id;
    operation_type = operation_type;
    user_id = user_id;
    timestamp_ms = timestamp_ms;
    vector_clock = vector_clock;
    payload = payload;
    applied = applied;
    created_at = created_at;
  })

pub record GossipMessage : Type 0 where
  pub sender_id : String
  pub sender_address : String
  pub vector_clock : Dict ℕ
  pub operation_summaries : List OperationSummary

unfoldable pub gossip_message_to_json : GossipMessage → Json
gossip_message_to_json m = object (
    field "sender_id" (str m.sender_id) (
      field "sender_address" (str m.sender_address) (
        field "vector_clock" (object (counters m.vector_clock)) (
          field "operation_summaries"
            (arr (messages operation_summary_to_json m.operation_summaries)) end))))

unfoldable pub gossip_message_from_json : Json → Option GossipMessage
gossip_message_from_json obj = do
  sender_id ← get_str "sender_id" obj
  sender_address ← get_str "sender_address" obj
  vector_clock ← get_clock "vector_clock" obj
  operation_summaries ← get_messages operation_summary_from_json "operation_summaries" obj
  some (record {
    sender_id = sender_id;
    sender_address = sender_address;
    vector_clock = vector_clock;
    operation_summaries = operation_summaries;
  })

pub record GossipResponse : Type 0 where
  pub peer_id : String
  pub vector_clock : Dict ℕ
  pub missing_operation_ids : List String

unfoldable pub gossip_response_to_json : GossipResponse → Json
gossip_response_to_json m = object (
    field "peer_id" (str m.peer_id) (
      field "vector_clock" (object (counters m.vector_clock))
        (field "missing_operation_ids" (arr (strings m.missing_operation_ids)) end)))

unfoldable pub gossip_response_from_json : Json → Option GossipResponse
gossip_response_from_json obj = do
  peer_id ← get_str "peer_id" obj
  vector_clock ← get_clock "vector_clock" obj
  missing_operation_ids ← get_strs "missing_operation_ids" obj
  some (record {
    peer_id = peer_id;
    vector_clock = vector_clock;
    missing_operation_ids = missing_operation_ids;
  })

pub record StateSummary : Type 0 where
  pub peer_id : String
  pub vector_clock : Dict ℕ
  pub operation_ids : List String

unfoldable pub state_summary_to_json : StateSummary → Json
state_summary_to_json m = object (
    field "peer_id" (str m.peer_id) (
      field "vector_clock" (object (counters m.vector_clock))
        (field "operation_ids" (arr (strings m.operation_ids)) end)))

unfoldable pub state_summary_from_json : Json → Option StateSummary
state_summary_from_json obj = do
  peer_id ← get_str "peer_id" obj
  vector_clock ← get_clock "vector_clock" obj
  operation_ids ← get_strs "operation_ids" obj
  some (record { peer_id = peer_id; vector_clock = vector_clock; operation_ids = operation_ids })

pub record FetchOperationsRequest : Type 0 where
  pub operation_ids : List String

unfoldable pub fetch_operations_request_to_json : FetchOperationsRequest → Json
fetch_operations_request_to_json m =
    object (field "operation_ids" (arr (strings m.operation_ids)) end)

unfoldable pub fetch_operations_request_from_json : Json → Option FetchOperationsRequest
fetch_operations_request_from_json obj = do
  operation_ids ← get_strs "operation_ids" obj
  some (record { operation_ids = operation_ids })

pub record FetchOperationsResponse : Type 0 where
  pub operations : List Operation

unfoldable pub fetch_operations_response_to_json : FetchOperationsResponse → Json
fetch_operations_response_to_json m =
    object (field "operations" (arr (messages operation_to_json m.operations)) end)

unfoldable pub fetch_operations_response_from_json : Json → Option FetchOperationsResponse
fetch_operations_response_from_json obj = do
  operations ← get_messages operation_from_json "operations" obj
  some (record { operations = operations })

pub record PushOperationsRequest : Type 0 where
  pub operations : List Operation

unfoldable pub push_operations_request_to_json : PushOperationsRequest → Json
push_operations_request_to_json m =
    object (field "operations" (arr (messages operation_to_json m.operations)) end)

unfoldable pub push_operations_request_from_json : Json → Option PushOperationsRequest
push_operations_request_from_json obj = do
  operations ← get_messages operation_from_json "operations" obj
  some (record { operations = operations })

pub record PushOperationsResponse : Type 0 where
  pub success : Bool
  pub error_message : Option String

unfoldable pub push_operations_response_to_json : PushOperationsResponse → Json
push_operations_response_to_json m =
    object (field "success" (bool m.success) (field "error_message" (optional m.error_message) end))

unfoldable pub push_operations_response_from_json : Json → Option PushOperationsResponse
push_operations_response_from_json obj = do
  success ← get_bool "success" obj
  error_message ← some (get_optional "error_message" obj)
  some (record { success = success; error_message = error_message })

pub record QueryChunkLivenessRequest : Type 0 where
  pub chunk_id : String

unfoldable pub query_chunk_liveness_request_to_json : QueryChunkLivenessRequest → Json
query_chunk_liveness_request_to_json m = object (field "chunk_id" (str m.chunk_id) end)

unfoldable pub query_chunk_liveness_request_from_json : Json → Option QueryChunkLivenessRequest
query_chunk_liveness_request_from_json obj = do
  chunk_id ← get_str "chunk_id" obj
  some (record { chunk_id = chunk_id })

pub record QueryChunkLivenessResponse : Type 0 where
  pub chunk_id : String
  pub is_live : Bool
  pub referenced_by_files : List String

unfoldable pub query_chunk_liveness_response_to_json : QueryChunkLivenessResponse → Json
query_chunk_liveness_response_to_json m = object (
    field "chunk_id" (str m.chunk_id) (
      field "is_live" (bool m.is_live)
        (field "referenced_by_files" (arr (strings m.referenced_by_files)) end)))

unfoldable pub query_chunk_liveness_response_from_json : Json → Option QueryChunkLivenessResponse
query_chunk_liveness_response_from_json obj = do
  chunk_id ← get_str "chunk_id" obj
  is_live ← get_bool "is_live" obj
  referenced_by_files ← get_strs "referenced_by_files" obj
  some
      (record { chunk_id = chunk_id; is_live = is_live; referenced_by_files = referenced_by_files })
