-- ===== src/Protocol/Peers.antt =====
-- common/protocol.py: the messages between chunkservers.
pub mod Decoded
use redcloud_files.Base.{ℕ, String, Bool, Option, none, some, List}
use redcloud_files.Base.Dict.{Dict}
use redcloud_files.Chunkserver.Index.{ℤ, pos, TombstoneEntry}
use redcloud_files.Protocol.Json.{
  Json, Items, Fields, null, bool, int, str, arr, object, end, field, ◌>>=◌, get, get_str, get_int,
  get_nat, get_bool, get_optional, optional, strings, get_strs, counters, get_clock, messages,
  get_messages,
}
use redcloud_files.Chunkserver.Peers.{ChunkSummary, FetchChunkResponse}

unfoldable pub chunk_summary_to_json : ChunkSummary → Json
chunk_summary_to_json m = object (
    field "chunk_id" (str m.chunk_id)
      (field "checksum" (str m.checksum) (field "size" (int (pos m.size)) end)))

unfoldable pub chunk_summary_from_json : Json → Option ChunkSummary
chunk_summary_from_json obj = do
  chunk_id ← get_str "chunk_id" obj
  checksum ← get_str "checksum" obj
  size ← get_nat "size" obj
  some (record { chunk_id = chunk_id; checksum = checksum; size = size })

unfoldable pub tombstone_entry_to_json : TombstoneEntry → Json
tombstone_entry_to_json m = object (
    field "chunk_id" (str m.chunk_id)
      (field "deleted_at" (str m.deleted_at) (field "checksum" (str m.checksum) end)))

unfoldable pub tombstone_entry_from_json : Json → Option TombstoneEntry
tombstone_entry_from_json obj = do
  chunk_id ← get_str "chunk_id" obj
  deleted_at ← get_str "deleted_at" obj
  checksum ← get_str "checksum" obj
  some (record { chunk_id = chunk_id; deleted_at = deleted_at; checksum = checksum })

pub record ChunkGossipMessage : Type 0 where
  pub sender_address : String
  pub chunk_summaries : List ChunkSummary
  pub tombstones : List TombstoneEntry

unfoldable pub chunk_gossip_message_to_json : ChunkGossipMessage → Json
chunk_gossip_message_to_json m = object (
    field "sender_address" (str m.sender_address) (
      field "chunk_summaries" (arr (messages chunk_summary_to_json m.chunk_summaries))
        (field "tombstones" (arr (messages tombstone_entry_to_json m.tombstones)) end)))

unfoldable pub chunk_gossip_message_from_json : Json → Option ChunkGossipMessage
chunk_gossip_message_from_json obj = do
  sender_address ← get_str "sender_address" obj
  chunk_summaries ← get_messages chunk_summary_from_json "chunk_summaries" obj
  tombstones ← get_messages tombstone_entry_from_json "tombstones" obj
  some (record {
    sender_address = sender_address;
    chunk_summaries = chunk_summaries;
    tombstones = tombstones;
  })

pub record ChunkGossipResponse : Type 0 where
  pub peer_address : String
  pub missing_chunk_ids : List String

unfoldable pub chunk_gossip_response_to_json : ChunkGossipResponse → Json
chunk_gossip_response_to_json m = object (
    field "peer_address" (str m.peer_address)
      (field "missing_chunk_ids" (arr (strings m.missing_chunk_ids)) end))

unfoldable pub chunk_gossip_response_from_json : Json → Option ChunkGossipResponse
chunk_gossip_response_from_json obj = do
  peer_address ← get_str "peer_address" obj
  missing_chunk_ids ← get_strs "missing_chunk_ids" obj
  some (record { peer_address = peer_address; missing_chunk_ids = missing_chunk_ids })

pub record ChunkStateSummary : Type 0 where
  pub peer_address : String
  pub chunk_ids : List String
  pub tombstone_ids : List String
  pub chunk_count : ℕ
  pub total_size_bytes : ℕ

unfoldable pub chunk_state_summary_to_json : ChunkStateSummary → Json
chunk_state_summary_to_json m = object (
    field "peer_address" (str m.peer_address) (
      field "chunk_ids" (arr (strings m.chunk_ids)) (
        field "tombstone_ids" (arr (strings m.tombstone_ids)) (
          field "chunk_count" (int (pos m.chunk_count))
            (field "total_size_bytes" (int (pos m.total_size_bytes)) end)))))

unfoldable pub chunk_state_summary_from_json : Json → Option ChunkStateSummary
chunk_state_summary_from_json obj = do
  peer_address ← get_str "peer_address" obj
  chunk_ids ← get_strs "chunk_ids" obj
  tombstone_ids ← get_strs "tombstone_ids" obj
  chunk_count ← get_nat "chunk_count" obj
  total_size_bytes ← get_nat "total_size_bytes" obj
  some (record {
    peer_address = peer_address;
    chunk_ids = chunk_ids;
    tombstone_ids = tombstone_ids;
    chunk_count = chunk_count;
    total_size_bytes = total_size_bytes;
  })

pub record FetchChunkRequest : Type 0 where
  pub chunk_id : String

unfoldable pub fetch_chunk_request_to_json : FetchChunkRequest → Json
fetch_chunk_request_to_json m = object (field "chunk_id" (str m.chunk_id) end)

unfoldable pub fetch_chunk_request_from_json : Json → Option FetchChunkRequest
fetch_chunk_request_from_json obj = do
  chunk_id ← get_str "chunk_id" obj
  some (record { chunk_id = chunk_id })

unfoldable pub fetch_chunk_response_to_json : FetchChunkResponse → Json
fetch_chunk_response_to_json m = object (
    field "chunk_id" (str m.chunk_id) (
      field "checksum" (str m.checksum) (
        field "size" (int (pos m.size))
          (field "exists" (bool m.exists) (field "error_message" (optional m.error_message) end)))))

unfoldable pub fetch_chunk_response_from_json : Json → Option FetchChunkResponse
fetch_chunk_response_from_json obj = do
  chunk_id ← get_str "chunk_id" obj
  checksum ← get_str "checksum" obj
  size ← get_nat "size" obj
  exists ← get_bool "exists" obj
  error_message ← some (get_optional "error_message" obj)
  some (record {
    chunk_id = chunk_id;
    checksum = checksum;
    size = size;
    exists = exists;
    error_message = error_message;
  })

pub record PushTombstonesRequest : Type 0 where
  pub tombstones : List TombstoneEntry

unfoldable pub push_tombstones_request_to_json : PushTombstonesRequest → Json
push_tombstones_request_to_json m =
    object (field "tombstones" (arr (messages tombstone_entry_to_json m.tombstones)) end)

unfoldable pub push_tombstones_request_from_json : Json → Option PushTombstonesRequest
push_tombstones_request_from_json obj = do
  tombstones ← get_messages tombstone_entry_from_json "tombstones" obj
  some (record { tombstones = tombstones })

pub record PushTombstonesResponse : Type 0 where
  pub success : Bool
  pub processed_count : ℕ
  pub error_message : Option String

unfoldable pub push_tombstones_response_to_json : PushTombstonesResponse → Json
push_tombstones_response_to_json m = object (
    field "success" (bool m.success) (
      field "processed_count" (int (pos m.processed_count))
        (field "error_message" (optional m.error_message) end)))

unfoldable pub push_tombstones_response_from_json : Json → Option PushTombstonesResponse
push_tombstones_response_from_json obj = do
  success ← get_bool "success" obj
  processed_count ← get_nat "processed_count" obj
  error_message ← some (get_optional "error_message" obj)
  some (record {
    success = success;
    processed_count = processed_count;
    error_message = error_message;
  })
