-- ===== src/Chunkserver/Peers/Uploads.antt =====
-- An upload to grpc_server.py of another chunk leaves a deleted chunk deleted.
use redcloud_files.Base.{String, Option, none, some, ◌≢◌, arith, eq_iff}
use redcloud_files.Base.Dict
use redcloud_files.Chunkserver.Storage.{Bytes, Fault}
use redcloud_files.Chunkserver.Index.{add_chunk, chunk_exists, is_tombstoned}
use redcloud_files.Chunkserver.Server.{
  Server, Outside, ChunkMetadata, Received, conclude_write, check_and_store, store_chunk, entry_of,
}
use redcloud_files.Chunkserver.Peers.Buried.{IsBuried}

-- the chunk that an upload is about, if it can be read, is another one
abbrev pub IsOther : String → Option ChunkMetadata → Type 0
IsOther chunk_id none = Unit
IsOther chunk_id (some metadata) = metadata.chunk_id ≢ chunk_id

abbrev pub TargetsOther : String → Option Received → Type 0
TargetsOther chunk_id none = Unit
TargetsOther chunk_id (some r) = IsOther chunk_id r.metadata

store_chunk-IsBuried :
    (outside : Outside) (fault : Option Fault) (chunk_id : String) (metadata : ChunkMetadata)
    (bytes : Bytes) (self : Server)
    → metadata.chunk_id ≢ chunk_id
    → IsBuried chunk_id self.chunks
    → IsBuried chunk_id (store_chunk outside fault metadata bytes self).1.chunks
unfolding store_chunk add_chunk chunk_exists is_tombstoned entry_of
store_chunk-IsBuried outside none chunk_id metadata bytes self other b = record {
  tombstoned = b.tombstoned;
  unheld = ground (
    arith,
    b.unheld,
    other,
    eq_iff metadata.chunk_id chunk_id,
    Dict.has_key-insert metadata.chunk_id chunk_id (entry_of outside metadata) self.chunks.index,
  );
}
store_chunk-IsBuried outside (some fault) chunk_id metadata bytes self other b = b

check_and_store-IsBuried :
    (outside : Outside) (fault : Option Fault) (chunk_id : String) (metadata : Option ChunkMetadata)
    (computed : String) (bytes : Bytes) (self : Server)
    → IsOther chunk_id metadata
    → IsBuried chunk_id self.chunks
    → IsBuried chunk_id (check_and_store outside fault metadata computed bytes self).1.chunks
unfolding check_and_store
check_and_store-IsBuried outside fault chunk_id none computed bytes self other b = b
check_and_store-IsBuried outside fault chunk_id (some metadata) computed bytes self other b =
    ground (arith, b, store_chunk-IsBuried outside fault chunk_id metadata bytes self other b)

pub conclude_write-IsBuried :
    (outside : Outside) (fault : Option Fault) (chunk_id : String) (r : Option Received)
    (self : Server)
    → TargetsOther chunk_id r
    → IsBuried chunk_id self.chunks
    → IsBuried chunk_id (conclude_write outside fault r self).1.chunks
unfolding conclude_write
conclude_write-IsBuried outside fault chunk_id none self other b = b
conclude_write-IsBuried outside fault chunk_id (some r) self other b =
    check_and_store-IsBuried outside fault chunk_id r.metadata _ r.data_buffer self other b
