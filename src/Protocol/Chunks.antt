-- ===== src/Protocol/Chunks.antt =====
-- common/protocol.py: the messages of a client to a chunkserver. Base64 is a parameter.
pub mod Decoded
use redcloud_files.Base.{ℕ, String, Bool, Option, none, some, List}
use redcloud_files.Base.Dict.{Dict}
use redcloud_files.Chunkserver.Index.{ℤ, pos}
use redcloud_files.Protocol.Json.{
  Json, Items, Fields, null, bool, int, str, arr, object, end, field, ◌>>=◌, get, as_str, get_str,
  get_int, get_nat, get_bool, get_optional, optional, strings, get_strs, counters, get_clock,
  messages, get_messages,
}
use redcloud_files.Chunkserver.Storage.{Bytes}
use redcloud_files.Chunkserver.Server.{ChunkMetadata, WriteChunkRequest}

unfoldable pub chunk_metadata_to_json : ChunkMetadata → Json
chunk_metadata_to_json m = object (
    field "chunk_id" (str m.chunk_id) (
      field "file_id" (str m.file_id) (
        field "chunk_index" (int m.chunk_index)
          (field "total_size" (int (pos m.total_size)) (field "checksum" (str m.checksum) end)))))

unfoldable pub chunk_metadata_from_json : Json → Option ChunkMetadata
chunk_metadata_from_json obj = do
  chunk_id ← get_str "chunk_id" obj
  file_id ← get_str "file_id" obj
  chunk_index ← get_int "chunk_index" obj
  total_size ← get_nat "total_size" obj
  checksum ← get_str "checksum" obj
  some (record {
    chunk_id = chunk_id;
    file_id = file_id;
    chunk_index = chunk_index;
    total_size = total_size;
    checksum = checksum;
  })

-- `base64.b64encode(...).decode('ascii')` and `base64.b64decode`, which raises (none here) on other
-- texts
pub record Base64 : Type 0 where
  pub encode : Bytes → String
  pub decode : String → Option Bytes

pub record ReadChunkResponse : Type 0 where
  pub metadata : Option ChunkMetadata
  pub piece : Option Bytes

unfoldable pub with_metadata : Option ChunkMetadata → Fields → Fields
with_metadata none rest = rest
with_metadata (some m) rest = field "metadata" (chunk_metadata_to_json m) rest

-- `... if 'metadata' in obj else None`
unfoldable pub read_metadata : Option Json → Option (Option ChunkMetadata)
read_metadata none = some none
read_metadata (some v) = do m ← chunk_metadata_from_json v; some (some m)

module _ (base64 : Base64) where
  unfoldable pub chunk_data_piece_to_json : Bytes → Json
  chunk_data_piece_to_json bytes = object (field "data" (str (base64.encode bytes)) end)

  unfoldable pub chunk_data_piece_from_json : Json → Option Bytes
  chunk_data_piece_from_json obj = do text ← get_str "data" obj; base64.decode text

  unfoldable pub with_piece : Option Bytes → Fields
  with_piece none = end
  with_piece (some bytes) = field "data" (str (base64.encode bytes)) end

  unfoldable pub read_piece : Option Json → Option (Option Bytes)
  read_piece none = some none
  read_piece (some v) = do text ← as_str v; bytes ← base64.decode text; some (some bytes)

  unfoldable pub write_chunk_request_to_json : WriteChunkRequest → Json
  write_chunk_request_to_json m = object (with_metadata m.metadata (with_piece m.piece))

  unfoldable pub write_chunk_request_from_json : Json → Option WriteChunkRequest
  write_chunk_request_from_json obj = do
    metadata ← read_metadata (get "metadata" obj)
    piece ← read_piece (get "data" obj)
    some (record { metadata = metadata; piece = piece })

  -- the same two fields
  unfoldable pub read_chunk_response_to_json : ReadChunkResponse → Json
  read_chunk_response_to_json m = object (with_metadata m.metadata (with_piece m.piece))

  unfoldable pub read_chunk_response_from_json : Json → Option ReadChunkResponse
  read_chunk_response_from_json obj = do
    metadata ← read_metadata (get "metadata" obj)
    piece ← read_piece (get "data" obj)
    some (record { metadata = metadata; piece = piece })

pub record WriteChunkResponse : Type 0 where
  pub success : Bool
  pub error_message : Option String

unfoldable pub write_chunk_response_to_json : WriteChunkResponse → Json
write_chunk_response_to_json m =
    object (field "success" (bool m.success) (field "error_message" (optional m.error_message) end))

unfoldable pub write_chunk_response_from_json : Json → Option WriteChunkResponse
write_chunk_response_from_json obj = do
  success ← get_bool "success" obj
  error_message ← some (get_optional "error_message" obj)
  some (record { success = success; error_message = error_message })

pub record ReadChunkRequest : Type 0 where
  pub chunk_id : String

unfoldable pub read_chunk_request_to_json : ReadChunkRequest → Json
read_chunk_request_to_json m = object (field "chunk_id" (str m.chunk_id) end)

unfoldable pub read_chunk_request_from_json : Json → Option ReadChunkRequest
read_chunk_request_from_json obj = do
  chunk_id ← get_str "chunk_id" obj
  some (record { chunk_id = chunk_id })

pub record DeleteChunkRequest : Type 0 where
  pub chunk_id : String

unfoldable pub delete_chunk_request_to_json : DeleteChunkRequest → Json
delete_chunk_request_to_json m = object (field "chunk_id" (str m.chunk_id) end)

unfoldable pub delete_chunk_request_from_json : Json → Option DeleteChunkRequest
delete_chunk_request_from_json obj = do
  chunk_id ← get_str "chunk_id" obj
  some (record { chunk_id = chunk_id })

pub record DeleteChunkResponse : Type 0 where
  pub success : Bool
  pub error_message : Option String

unfoldable pub delete_chunk_response_to_json : DeleteChunkResponse → Json
delete_chunk_response_to_json m =
    object (field "success" (bool m.success) (field "error_message" (optional m.error_message) end))

unfoldable pub delete_chunk_response_from_json : Json → Option DeleteChunkResponse
delete_chunk_response_from_json obj = do
  success ← get_bool "success" obj
  error_message ← some (get_optional "error_message" obj)
  some (record { success = success; error_message = error_message })

pub record PingResponse : Type 0 where
  pub available : Bool

unfoldable pub ping_response_to_json : PingResponse → Json
ping_response_to_json m = object (field "available" (bool m.available) end)

unfoldable pub ping_response_from_json : Json → Option PingResponse
ping_response_from_json obj = do
  available ← get_bool "available" obj
  some (record { available = available })
