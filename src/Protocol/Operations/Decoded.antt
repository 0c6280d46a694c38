-- ===== src/Protocol/Operations/Decoded.antt =====
-- The messages between controllers are read back as they were written.
use redcloud_files.Base.{some, ◌≡◌, refl, arith}
use redcloud_files.Protocol.Json.{
  look_up, get, as_str, as_nat, as_int, as_bool, as_strings, as_clock, as_messages, get_messages,
  optional, read_strings-strings, read_counters-counters, read_messages-messages,
}
use redcloud_files.Replication.Log.{OperationSummary}
use redcloud_files.Protocol.Operations.{
  operation_summary_to_json, operation_summary_from_json, Operation, operation_to_json,
  operation_from_json, GossipMessage, gossip_message_to_json, gossip_message_from_json,
  GossipResponse, gossip_response_to_json, gossip_response_from_json, StateSummary,
  state_summary_to_json, state_summary_from_json, FetchOperationsRequest,
  fetch_operations_request_to_json, fetch_operations_request_from_json, FetchOperationsResponse,
  fetch_operations_response_to_json, fetch_operations_response_from_json, PushOperationsRequest,
  push_operations_request_to_json, push_operations_request_from_json, PushOperationsResponse,
  push_operations_response_to_json, push_operations_response_from_json, QueryChunkLivenessRequest,
  query_chunk_liveness_request_to_json, query_chunk_liveness_request_from_json,
  QueryChunkLivenessResponse, query_chunk_liveness_response_to_json,
  query_chunk_liveness_response_from_json,
}

operation_summary_back :
    (m : OperationSummary) → operation_summary_from_json (operation_summary_to_json m) ≡ some m
unfolding operation_summary_from_json operation_summary_to_json look_up get as_str as_nat as_int
    as_bool as_strings as_clock as_messages get_messages optional
operation_summary_back m = rw (read_counters-counters m.vector_clock)

operation_back : (m : Operation) → operation_from_json (operation_to_json m) ≡ some m
unfolding operation_from_json operation_to_json look_up get as_str as_nat as_int as_bool as_strings
    as_clock as_messages get_messages optional
operation_back m = rw (read_counters-counters m.vector_clock)

gossip_message_back :
    (m : GossipMessage) → gossip_message_from_json (gossip_message_to_json m) ≡ some m
unfolding gossip_message_from_json gossip_message_to_json look_up get as_str as_nat as_int as_bool
    as_strings as_clock as_messages get_messages optional
gossip_message_back m = rw (
  read_counters-counters m.vector_clock,
  read_messages-messages operation_summary_to_json operation_summary_from_json
      operation_summary_back m.operation_summaries,
)

gossip_response_back :
    (m : GossipResponse) → gossip_response_from_json (gossip_response_to_json m) ≡ some m
unfolding gossip_response_from_json gossip_response_to_json look_up get as_str as_nat as_int as_bool
    as_strings as_clock as_messages get_messages optional
gossip_response_back m =
    rw (read_counters-counters m.vector_clock, read_strings-strings m.missing_operation_ids)

state_summary_back : (m : StateSummary) → state_summary_from_json (state_summary_to_json m) ≡ some m
unfolding state_summary_from_json state_summary_to_json look_up get as_str as_nat as_int as_bool
    as_strings as_clock as_messages get_messages optional
state_summary_back m =
    rw (read_counters-counters m.vector_clock, read_strings-strings m.operation_ids)

fetch_operations_request_back :
    (m : FetchOperationsRequest)
    → fetch_operations_request_from_json (fetch_operations_request_to_json m) ≡ some m
unfolding fetch_operations_request_from_json fetch_operations_request_to_json look_up get as_str
    as_nat as_int as_bool as_strings as_clock as_messages get_messages optional
fetch_operations_request_back m = rw (read_strings-strings m.operation_ids)

fetch_operations_response_back :
    (m : FetchOperationsResponse)
    → fetch_operations_response_from_json (fetch_operations_response_to_json m) ≡ some m
unfolding fetch_operations_response_from_json fetch_operations_response_to_json look_up get as_str
    as_nat as_int as_bool as_strings as_clock as_messages get_messages optional
fetch_operations_response_back m =
    rw (read_messages-messages operation_to_json operation_from_json operation_back m.operations)

push_operations_request_back :
    (m : PushOperationsRequest)
    → push_operations_request_from_json (push_operations_request_to_json m) ≡ some m
unfolding push_operations_request_from_json push_operations_request_to_json look_up get as_str
    as_nat as_int as_bool as_strings as_clock as_messages get_messages optional
push_operations_request_back m =
    rw (read_messages-messages operation_to_json operation_from_json operation_back m.operations)

push_operations_response_back :
    (m : PushOperationsResponse)
    → push_operations_response_from_json (push_operations_response_to_json m) ≡ some m
unfolding push_operations_response_from_json push_operations_response_to_json look_up get as_str
    as_nat as_int as_bool as_strings as_clock as_messages get_messages optional
push_operations_response_back m = ground (arith)

query_chunk_liveness_request_back :
    (m : QueryChunkLivenessRequest)
    → query_chunk_liveness_request_from_json (query_chunk_liveness_request_to_json m) ≡ some m
unfolding query_chunk_liveness_request_from_json query_chunk_liveness_request_to_json look_up get
    as_str as_nat as_int as_bool as_strings as_clock as_messages get_messages optional
query_chunk_liveness_request_back m = refl

query_chunk_liveness_response_back :
    (m : QueryChunkLivenessResponse)
    → query_chunk_liveness_response_from_json (query_chunk_liveness_response_to_json m) ≡ some m
unfolding query_chunk_liveness_response_from_json query_chunk_liveness_response_to_json look_up get
    as_str as_nat as_int as_bool as_strings as_clock as_messages get_messages optional
query_chunk_liveness_response_back m = rw (read_strings-strings m.referenced_by_files)

-- from_json reads back every message between controllers that to_json wrote.
pub controller_messages_decoded :
    ((m : OperationSummary) → operation_summary_from_json (operation_summary_to_json m) ≡ some m)
    × ((m : Operation) → operation_from_json (operation_to_json m) ≡ some m)
    × ((m : GossipMessage) → gossip_message_from_json (gossip_message_to_json m) ≡ some m)
    × ((m : GossipResponse) → gossip_response_from_json (gossip_response_to_json m) ≡ some m)
    × ((m : StateSummary) → state_summary_from_json (state_summary_to_json m) ≡ some m)
    × ((m : FetchOperationsRequest)
        → fetch_operations_request_from_json (fetch_operations_request_to_json m) ≡ some m)
    × ((m : FetchOperationsResponse)
        → fetch_operations_response_from_json (fetch_operations_response_to_json m) ≡ some m)
    × ((m : PushOperationsRequest)
        → push_operations_request_from_json (push_operations_request_to_json m) ≡ some m)
    × ((m : PushOperationsResponse)
        → push_operations_response_from_json (push_operations_response_to_json m) ≡ some m)
    × ((m : QueryChunkLivenessRequest)
        → query_chunk_liveness_request_from_json (query_chunk_liveness_request_to_json m) ≡ some m)
    × ((m : QueryChunkLivenessResponse)
        → query_chunk_liveness_response_from_json (query_chunk_liveness_response_to_json m)
          ≡ some m)
controller_messages_decoded = (
  operation_summary_back, operation_back, gossip_message_back, gossip_response_back,
  state_summary_back, fetch_operations_request_back, fetch_operations_response_back,
  push_operations_request_back, push_operations_response_back, query_chunk_liveness_request_back,
  query_chunk_liveness_response_back,
)
