-- ===== src/Protocol/Peers/Decoded.antt =====
-- The messages between chunkservers are read back as they were written.
use redcloud_files.Base.{some, ◌≡◌, refl, arith}
use redcloud_files.Protocol.Json.{
  look_up, get, as_str, as_nat, as_int, as_bool, as_strings, as_clock, as_messages, get_messages,
  optional, read_strings-strings, read_messages-messages,
}
use redcloud_files.Chunkserver.Index.{TombstoneEntry}
use redcloud_files.Chunkserver.Peers.{FetchChunkResponse, ChunkSummary}
use redcloud_files.Protocol.Peers.{
  chunk_summary_to_json, chunk_summary_from_json, tombstone_entry_to_json,
  tombstone_entry_from_json, ChunkGossipMessage, chunk_gossip_message_to_json,
  chunk_gossip_message_from_json, ChunkGossipResponse, chunk_gossip_response_to_json,
  chunk_gossip_response_from_json, ChunkStateSummary, chunk_state_summary_to_json,
  chunk_state_summary_from_json, FetchChunkRequest, fetch_chunk_request_to_json,
  fetch_chunk_request_from_json, fetch_chunk_response_to_json, fetch_chunk_response_from_json,
  PushTombstonesRequest, push_tombstones_request_to_json, push_tombstones_request_from_json,
  PushTombstonesResponse, push_tombstones_response_to_json, push_tombstones_response_from_json,
}

chunk_summary_back : (m : ChunkSummary) → chunk_summary_from_json (chunk_summary_to_json m) ≡ some m
unfolding chunk_summary_from_json chunk_summary_to_json look_up get as_str as_nat as_int as_bool
    as_strings as_clock as_messages get_messages optional
chunk_summary_back m = refl

tombstone_entry_back :
    (m : TombstoneEntry) → tombstone_entry_from_json (tombstone_entry_to_json m) ≡ some m
unfolding tombstone_entry_from_json tombstone_entry_to_json look_up get as_str as_nat as_int as_bool
    as_strings as_clock as_messages get_messages optional
tombstone_entry_back m = refl

chunk_gossip_message_back :
    (m : ChunkGossipMessage)
    → chunk_gossip_message_from_json (chunk_gossip_message_to_json m) ≡ some m
unfolding chunk_gossip_message_from_json chunk_gossip_message_to_json look_up get as_str as_nat
    as_int as_bool as_strings as_clock as_messages get_messages optional
chunk_gossip_message_back m = rw (
  read_messages-messages chunk_summary_to_json chunk_summary_from_json chunk_summary_back
      m.chunk_summaries,
  read_messages-messages tombstone_entry_to_json tombstone_entry_from_json tombstone_entry_back
      m.tombstones,
)

chunk_gossip_response_back :
    (m : ChunkGossipResponse)
    → chunk_gossip_response_from_json (chunk_gossip_response_to_json m) ≡ some m
unfolding chunk_gossip_response_from_json chunk_gossip_response_to_json look_up get as_str as_nat
    as_int as_bool as_strings as_clock as_messages get_messages optional
chunk_gossip_response_back m = rw (read_strings-strings m.missing_chunk_ids)

chunk_state_summary_back :
    (m : ChunkStateSummary) → chunk_state_summary_from_json (chunk_state_summary_to_json m) ≡ some m
unfolding chunk_state_summary_from_json chunk_state_summary_to_json look_up get as_str as_nat as_int
    as_bool as_strings as_clock as_messages get_messages optional
chunk_state_summary_back m =
    rw (read_strings-strings m.chunk_ids, read_strings-strings m.tombstone_ids)

fetch_chunk_request_back :
    (m : FetchChunkRequest) → fetch_chunk_request_from_json (fetch_chunk_request_to_json m) ≡ some m
unfolding fetch_chunk_request_from_json fetch_chunk_request_to_json look_up get as_str as_nat as_int
    as_bool as_strings as_clock as_messages get_messages optional
fetch_chunk_request_back m = refl

fetch_chunk_response_back :
    (m : FetchChunkResponse)
    → fetch_chunk_response_from_json (fetch_chunk_response_to_json m) ≡ some m
unfolding fetch_chunk_response_from_json fetch_chunk_response_to_json look_up get as_str as_nat
    as_int as_bool as_strings as_clock as_messages get_messages optional
fetch_chunk_response_back m = ground (arith)

push_tombstones_request_back :
    (m : PushTombstonesRequest)
    → push_tombstones_request_from_json (push_tombstones_request_to_json m) ≡ some m
unfolding push_tombstones_request_from_json push_tombstones_request_to_json look_up get as_str
    as_nat as_int as_bool as_strings as_clock as_messages get_messages optional
push_tombstones_request_back m = rw (
    read_messages-messages tombstone_entry_to_json tombstone_entry_from_json tombstone_entry_back
      m.tombstones)

push_tombstones_response_back :
    (m : PushTombstonesResponse)
    → push_tombstones_response_from_json (push_tombstones_response_to_json m) ≡ some m
unfolding push_tombstones_response_from_json push_tombstones_response_to_json look_up get as_str
    as_nat as_int as_bool as_strings as_clock as_messages get_messages optional
push_tombstones_response_back m = ground (arith)

-- from_json reads back every message between chunkservers that to_json wrote.
pub chunkserver_messages_decoded :
    ((m : ChunkSummary) → chunk_summary_from_json (chunk_summary_to_json m) ≡ some m)
    × ((m : TombstoneEntry) → tombstone_entry_from_json (tombstone_entry_to_json m) ≡ some m)
    × ((m : ChunkGossipMessage)
        → chunk_gossip_message_from_json (chunk_gossip_message_to_json m) ≡ some m)
    × ((m : ChunkGossipResponse)
        → chunk_gossip_response_from_json (chunk_gossip_response_to_json m) ≡ some m)
    × ((m : ChunkStateSummary)
        → chunk_state_summary_from_json (chunk_state_summary_to_json m) ≡ some m)
    × ((m : FetchChunkRequest)
        → fetch_chunk_request_from_json (fetch_chunk_request_to_json m) ≡ some m)
    × ((m : FetchChunkResponse)
        → fetch_chunk_response_from_json (fetch_chunk_response_to_json m) ≡ some m)
    × ((m : PushTombstonesRequest)
        → push_tombstones_request_from_json (push_tombstones_request_to_json m) ≡ some m)
    × ((m : PushTombstonesResponse)
        → push_tombstones_response_from_json (push_tombstones_response_to_json m) ≡ some m)
chunkserver_messages_decoded = (
  chunk_summary_back, tombstone_entry_back, chunk_gossip_message_back, chunk_gossip_response_back,
  chunk_state_summary_back, fetch_chunk_request_back, fetch_chunk_response_back,
  push_tombstones_request_back, push_tombstones_response_back,
)
