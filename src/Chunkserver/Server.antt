-- ===== src/Chunkserver/Server.antt =====
-- chunkserver/grpc_server.py: the handlers of ChunkserverServicer over the index and the chunk files.
pub mod Intact
pub mod Transfers
use redcloud_files.Base.{
  ℕ, zero, suc, String, Bool, true, false, not, Option, none, some, List, [], ◌∷◌, ◌++◌, map,
  length, take, ◌==◌, if◌then◌else◌, str_eq,
}
use redcloud_files.Base.Dict
use redcloud_files.Chunkserver.Storage.{
  Bytes, Disk, Fault, write_chunk, read_chunk_streaming, delete_chunk, unlink_raises,
  get_chunk_path,
}
use redcloud_files.Chunkserver.Checksum.{
  IncrementalChecksumCalculator, new_calculator, update, finalize,
}
use redcloud_files.Chunkserver.Index.{
  ℤ, ChunkIndex, ChunkIndexEntry, add_chunk, get_chunk, remove_chunk, add_tombstone,
}

-- what one chunkserver process keeps
pub record Server : Type 0 where
  pub disk : Disk
  pub chunks : ChunkIndex

-- what the process finds outside: SHA-256, the current time as a text, and CHUNKS_DIR
pub record Outside : Type 0 where
  pub sha256 : Bytes → String
  pub now : String
  pub chunks_dir : String

pub record ChunkMetadata : Type 0 where
  pub chunk_id : String
  pub file_id : String
  pub chunk_index : ℤ
  pub total_size : ℕ
  pub checksum : String

pub record WriteChunkRequest : Type 0 where
  pub metadata : Option ChunkMetadata
  pub piece : Option Bytes

-- the error messages of WriteChunk, without the values they print
pub data WriteError : Type 0 where
  no_metadata : WriteError
  checksum_mismatch : WriteError
  size_mismatch : WriteError
  disk_full : WriteError
  error_writing : WriteError

pub data WriteChunkResponse : Type 0 where
  written : WriteChunkResponse
  rejected : WriteError → WriteChunkResponse

-- the variables of the receiving loop
pub record Received : Type 0 where
  pub metadata : Option ChunkMetadata
  pub data_buffer : Bytes
  pub checksum_calculator : IncrementalChecksumCalculator

abbrev pub nothing_received : Received
nothing_received = record {
  metadata = none;
  data_buffer = [];
  checksum_calculator = new_calculator;
}

unfoldable pub last_metadata : Option ChunkMetadata → Option ChunkMetadata → Option ChunkMetadata
last_metadata none old = old
last_metadata (some metadata) old = some metadata

unfoldable pub with_calculator : Received → Option IncrementalChecksumCalculator → Option Received
with_calculator r none = none
with_calculator r (some c) = some (record r { checksum_calculator = c })

unfoldable pub add_piece : Option Bytes → Received → Option Received
add_piece none r = some r
add_piece (some piece) r =
    with_calculator (record r { data_buffer = r.data_buffer ++ piece })
      (update piece r.checksum_calculator)

unfoldable pub go_on : (Received → Option Received) → Option Received → Option Received
go_on rest none = none
go_on rest (some r) = rest r

-- a message that `from_json` cannot read (none here) raises
unfoldable pub receive : List (Option WriteChunkRequest) → Received → Option Received
receive [] r = some r
receive (none ∷ rest) r = none
receive (some request ∷ rest) r =
    go_on (receive rest)
      (add_piece request.piece (record r { metadata = last_metadata request.metadata r.metadata }))

-- `errno.ENOSPC`
abbrev pub enospc : ℕ
enospc = 28

unfoldable pub failed : ℕ → WriteChunkResponse
failed errno = if errno == enospc then rejected disk_full else rejected error_writing

unfoldable pub entry_of : Outside → ChunkMetadata → ChunkIndexEntry
entry_of outside metadata = record {
  chunk_id = metadata.chunk_id;
  file_id = metadata.file_id;
  chunk_index = metadata.chunk_index;
  size = metadata.total_size;
  checksum = metadata.checksum;
  filepath = get_chunk_path outside.chunks_dir metadata.chunk_id;
}

-- the write of the file, which raises where there is a fault, and the entry that follows it
unfoldable pub store_chunk :
    Outside → Option Fault → ChunkMetadata → Bytes → Server → WriteChunkResponse × Server
store_chunk outside none metadata bytes self = (
  written,
  record {
    disk = write_chunk none metadata.chunk_id bytes self.disk;
    chunks = add_chunk (entry_of outside metadata) self.chunks;
  },
)
store_chunk outside (some fault) metadata bytes self = (
  failed fault.errno,
  record self { disk = write_chunk (some fault) metadata.chunk_id bytes self.disk },
)

-- the checks after the last message
unfoldable pub check_and_store :
    Outside
    → Option Fault
    → Option ChunkMetadata
    → String
    → Bytes
    → Server
    → WriteChunkResponse × Server
check_and_store outside fault none computed_checksum data_buffer self = (rejected no_metadata, self)
check_and_store outside fault (some metadata) computed_checksum data_buffer self =
    if not (str_eq computed_checksum metadata.checksum)
    then (rejected checksum_mismatch, self)
    else if not (length data_buffer == metadata.total_size)
    then (rejected size_mismatch, self)
    else store_chunk outside fault metadata data_buffer self

unfoldable pub conclude_write :
    Outside → Option Fault → Option Received → Server → WriteChunkResponse × Server
conclude_write outside fault none self = (rejected error_writing, self)
conclude_write outside fault (some r) self =
    check_and_store outside fault r.metadata (finalize outside.sha256 r.checksum_calculator).0
      r.data_buffer self

unfoldable pub handle_write_chunk :
    Outside → Option Fault → List (Option WriteChunkRequest) → Server → WriteChunkResponse × Server
handle_write_chunk outside fault requests self =
    conclude_write outside fault (receive requests nothing_received) self

pub data ReadChunkResponse : Type 0 where
  metadata_of : ChunkMetadata → ReadChunkResponse
  piece_of : Bytes → ReadChunkResponse

-- the status that ends a stream; INTERNAL is that of any exception but FileNotFoundError
pub data Status : Type 0 where
  done : Status
  not_found : Status
  internal : Status

unfoldable pub metadata_from : ChunkIndexEntry → ChunkMetadata
metadata_from entry = record {
  chunk_id = entry.chunk_id;
  file_id = entry.file_id;
  chunk_index = entry.chunk_index;
  total_size = entry.size;
  checksum = entry.checksum;
}

-- The metadata is sent before the file is opened. A read may raise after a number of pieces.
unfoldable pub stream_chunk :
    ChunkIndexEntry → Option ℕ → Option (List Bytes) → List ReadChunkResponse × Status
stream_chunk entry raising none = (metadata_of (metadata_from entry) ∷ [], not_found)
stream_chunk entry none (some parts) =
    (metadata_of (metadata_from entry) ∷ map piece_of parts, done)
stream_chunk entry (some n) (some parts) =
    (metadata_of (metadata_from entry) ∷ map piece_of (take n parts), internal)

unfoldable pub stream_entry :
    ℕ → Option ℕ → String → Disk → Option ChunkIndexEntry → List ReadChunkResponse × Status
stream_entry piece_size raising chunk_id disk none = ([], not_found)
stream_entry piece_size raising chunk_id disk (some entry) =
    stream_chunk entry raising (read_chunk_streaming piece_size chunk_id disk)

-- `piece_size` is STREAM_PIECE_SIZE_BYTES
unfoldable pub handle_read_chunk : ℕ → Option ℕ → String → Server → List ReadChunkResponse × Status
handle_read_chunk piece_size raising chunk_id self =
    stream_entry piece_size raising chunk_id self.disk (get_chunk chunk_id self.chunks)

-- The response is a success in the first two cases; the second carries the message "Chunk not found".
-- The third is that of the except branch, with success=False.
pub data DeleteChunkResponse : Type 0 where
  deleted : DeleteChunkResponse
  chunk_not_found : DeleteChunkResponse
  error_deleting : DeleteChunkResponse

unfoldable pub last_checksum : Option ChunkIndexEntry → String
last_checksum none = ""
last_checksum (some entry) = entry.checksum

-- the branch where the removal of the file does not raise
unfoldable pub delete_and_bury : Outside → String → Server → DeleteChunkResponse × Server
delete_and_bury outside chunk_id self =
    let checksum = last_checksum (get_chunk chunk_id self.chunks) in
    let (found, disk) = delete_chunk chunk_id self.disk in
    let (_, removed) = remove_chunk chunk_id self.chunks in
    (
      if found then deleted else chunk_not_found,
      record { disk = disk; chunks = add_tombstone outside.now chunk_id checksum removed },
    )

-- `fails` tells that removing a file raises; the index and the tombstones are then as they were
unfoldable pub handle_delete_chunk : Outside → Bool → String → Server → DeleteChunkResponse × Server
handle_delete_chunk outside fails chunk_id self =
    if unlink_raises fails chunk_id self.disk
    then (error_deleting, self)
    else delete_and_bury outside chunk_id self
