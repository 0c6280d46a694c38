-- ===== src/Protocol/Chunks/Decoded.antt =====
-- The messages of a client to a chunkserver are read back as they were written.
use redcloud_files.Base.{Option, none, some, ◌≡◌, refl, arith}
use redcloud_files.Protocol.Json.{
  look_up, get, as_str, as_nat, as_int, as_bool, as_strings, as_clock, as_messages, get_messages,
  optional,
}
use redcloud_files.Chunkserver.Storage.{Bytes}
use redcloud_files.Chunkserver.Server.{ChunkMetadata, WriteChunkRequest}
use redcloud_files.Protocol.Chunks.{
  Base64, ReadChunkResponse, with_metadata, read_metadata, with_piece, read_piece,
  write_chunk_request_to_json, write_chunk_request_from_json, read_chunk_response_to_json,
  read_chunk_response_from_json, chunk_data_piece_to_json, chunk_data_piece_from_json,
  chunk_metadata_to_json, chunk_metadata_from_json, WriteChunkResponse,
  write_chunk_response_to_json, write_chunk_response_from_json, ReadChunkRequest,
  read_chunk_request_to_json, read_chunk_request_from_json, DeleteChunkRequest,
  delete_chunk_request_to_json, delete_chunk_request_from_json, DeleteChunkResponse,
  delete_chunk_response_to_json, delete_chunk_response_from_json, PingResponse,
  ping_response_to_json, ping_response_from_json,
}

chunk_metadata_back :
    (m : ChunkMetadata) → chunk_metadata_from_json (chunk_metadata_to_json m) ≡ some m
unfolding chunk_metadata_from_json chunk_metadata_to_json look_up get as_str as_nat as_int as_bool
    as_strings as_clock as_messages get_messages optional
chunk_metadata_back m = refl

write_chunk_response_back :
    (m : WriteChunkResponse)
    → write_chunk_response_from_json (write_chunk_response_to_json m) ≡ some m
unfolding write_chunk_response_from_json write_chunk_response_to_json look_up get as_str as_nat
    as_int as_bool as_strings as_clock as_messages get_messages optional
write_chunk_response_back m = ground (arith)

read_chunk_request_back :
    (m : ReadChunkRequest) → read_chunk_request_from_json (read_chunk_request_to_json m) ≡ some m
unfolding read_chunk_request_from_json read_chunk_request_to_json look_up get as_str as_nat as_int
    as_bool as_strings as_clock as_messages get_messages optional
read_chunk_request_back m = refl

delete_chunk_request_back :
    (m : DeleteChunkRequest)
    → delete_chunk_request_from_json (delete_chunk_request_to_json m) ≡ some m
unfolding delete_chunk_request_from_json delete_chunk_request_to_json look_up get as_str as_nat
    as_int as_bool as_strings as_clock as_messages get_messages optional
delete_chunk_request_back m = refl

delete_chunk_response_back :
    (m : DeleteChunkResponse)
    → delete_chunk_response_from_json (delete_chunk_response_to_json m) ≡ some m
unfolding delete_chunk_response_from_json delete_chunk_response_to_json look_up get as_str as_nat
    as_int as_bool as_strings as_clock as_messages get_messages optional
delete_chunk_response_back m = ground (arith)

ping_response_back : (m : PingResponse) → ping_response_from_json (ping_response_to_json m) ≡ some m
unfolding ping_response_from_json ping_response_to_json look_up get as_str as_nat as_int as_bool
    as_strings as_clock as_messages get_messages optional
ping_response_back m = refl

read_metadata-with_metadata :
    (base64 : Base64) (metadata : Option ChunkMetadata) (piece : Option Bytes)
    → read_metadata (look_up "metadata" (with_metadata metadata (with_piece base64 piece)))
      ≡ some metadata
unfolding read_metadata with_metadata with_piece look_up
read_metadata-with_metadata base64 none none = refl
read_metadata-with_metadata base64 none (some bytes) = refl
read_metadata-with_metadata base64 (some m) piece = rw (chunk_metadata_back m)

read_piece-with_piece :
    (base64 : Base64) (metadata : Option ChunkMetadata) (piece : Option Bytes)
    → ((bytes : Bytes) → base64.decode (base64.encode bytes) ≡ some bytes)
    → read_piece base64 (look_up "data" (with_metadata metadata (with_piece base64 piece)))
      ≡ some piece
unfolding read_piece with_metadata with_piece look_up as_str
read_piece-with_piece base64 none none law = refl
read_piece-with_piece base64 (some m) none law = refl
read_piece-with_piece base64 none (some bytes) law = rw (law bytes)
read_piece-with_piece base64 (some m) (some bytes) law = rw (law bytes)

-- from_json reads back every message of a client to a chunkserver, and of the chunkserver to it, that
-- to_json wrote, if decoding of Base64 undoes encoding.
pub client_messages_decoded :
    (base64 : Base64)
    → ((bytes : Bytes) → base64.decode (base64.encode bytes) ≡ some bytes)
    → ((m : ChunkMetadata) → chunk_metadata_from_json (chunk_metadata_to_json m) ≡ some m)
      × ((m : WriteChunkResponse)
          → write_chunk_response_from_json (write_chunk_response_to_json m) ≡ some m)
      × ((m : ReadChunkRequest)
          → read_chunk_request_from_json (read_chunk_request_to_json m) ≡ some m)
      × ((m : DeleteChunkRequest)
          → delete_chunk_request_from_json (delete_chunk_request_to_json m) ≡ some m)
      × ((m : DeleteChunkResponse)
          → delete_chunk_response_from_json (delete_chunk_response_to_json m) ≡ some m)
      × ((m : PingResponse) → ping_response_from_json (ping_response_to_json m) ≡ some m)
      × ((bytes : Bytes)
          → chunk_data_piece_from_json base64 (chunk_data_piece_to_json base64 bytes) ≡ some bytes)
      × ((m : WriteChunkRequest)
          → write_chunk_request_from_json base64 (write_chunk_request_to_json base64 m) ≡ some m)
      × ((m : ReadChunkResponse)
          → read_chunk_response_from_json base64 (read_chunk_response_to_json base64 m) ≡ some m)
unfolding chunk_data_piece_from_json chunk_data_piece_to_json write_chunk_request_from_json
    write_chunk_request_to_json read_chunk_response_from_json read_chunk_response_to_json get
    look_up as_str
client_messages_decoded base64 law = (
  chunk_metadata_back,
  write_chunk_response_back,
  read_chunk_request_back,
  delete_chunk_request_back,
  delete_chunk_response_back,
  ping_response_back,
  λ bytes. rw (law bytes),
  λ m. rw (
    read_metadata-with_metadata base64 m.metadata m.piece,
    read_piece-with_piece base64 m.metadata m.piece law,
  ),
  λ m. rw (
    read_metadata-with_metadata base64 m.metadata m.piece,
    read_piece-with_piece base64 m.metadata m.piece law,
  ),
)
