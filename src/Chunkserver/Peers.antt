-- ===== src/Chunkserver/Peers.antt =====
-- chunkserver/replication/: the handlers of ChunkReplicationServicer and the work of one round of
-- chunk_anti_entropy_manager.py on the own index and files.
pub mod Intact
pub mod Buried
pub mod Uploads
pub mod Missing
pub mod Fetched
use redcloud_files.Base.{
  ℕ, zero, suc, ◌+◌, String, Bool, true, false, not, ◌&&◌, Option, none, some, List, [], ◌∷◌, ◌++◌,
  map, length, if◌then◌else◌, str_eq, mem, select, set_of, difference,
}
use redcloud_files.Base.Dict
use redcloud_files.Chunkserver.Storage.{
  Bytes, Fault, write_chunk, delete_chunk, unlink_raises, get_chunk_path, read_chunk,
}
use redcloud_files.Chunkserver.Index.{
  ChunkIndex, ChunkIndexEntry, TombstoneEntry, add_chunk, chunk_exists, get_chunk, get_tombstone,
  add_tombstone, is_tombstoned, get_all_chunk_ids, get_all_tombstone_ids,
}
use redcloud_files.Chunkserver.Server.{
  Server, Outside, ChunkMetadata, ReadChunkResponse, Status, stream_entry, not_found,
}

pub record ChunkSummary : Type 0 where
  pub chunk_id : String
  pub checksum : String
  pub size : ℕ

-- the branch for a new tombstone
unfoldable pub add_new : Outside → TombstoneEntry → Server → Server
add_new outside tombstone self = record {
  disk =
      if chunk_exists tombstone.chunk_id self.chunks
      then (delete_chunk tombstone.chunk_id self.disk).1
      else self.disk;
  chunks = add_tombstone outside.now tombstone.chunk_id tombstone.checksum self.chunks;
}

-- `fails` tells of which chunks the removal of the file raises, and none is that exception
unfoldable pub apply_tombstone :
    Outside → (String → Bool) → TombstoneEntry → Server → Option ℕ × Server
apply_tombstone outside fails tombstone self =
    if is_tombstoned tombstone.chunk_id self.chunks
    then (some 0, self)
    else if chunk_exists tombstone.chunk_id self.chunks
        && unlink_raises (fails tombstone.chunk_id) tombstone.chunk_id self.disk
    then (none, self)
    else (some 1, add_new outside tombstone self)

unfoldable pub add_count : ℕ → Option ℕ × Server → Option ℕ × Server
add_count one (none, last) = (none, last)
add_count one (some count, last) = (some (one + count), last)

unfoldable pub after_tombstone :
    (Server → Option ℕ × Server) → Option ℕ × Server → Option ℕ × Server
after_tombstone rest (none, next) = (none, next)
after_tombstone rest (some one, next) = add_count one (rest next)

-- The loop over `request.tombstones`, with the number of those that were new. An exception ends it;
-- the tombstones before stay.
unfoldable pub apply_tombstones :
    Outside → (String → Bool) → List TombstoneEntry → Server → Option ℕ × Server
apply_tombstones outside fails [] self = (some 0, self)
apply_tombstones outside fails (tombstone ∷ rest) self =
    after_tombstone (apply_tombstones outside fails rest)
      (apply_tombstone outside fails tombstone self)

unfoldable pub summary_ids : List ChunkSummary → List String
summary_ids summaries = map (λ cs. cs.chunk_id) summaries

unfoldable pub missing_chunk_ids : List ChunkSummary → ChunkIndex → List String
missing_chunk_ids summaries index =
    select (λ cid. not (is_tombstoned cid index))
      (difference (set_of (summary_ids summaries)) (get_all_chunk_ids index))

unfoldable pub gossip_answer : List ChunkSummary → Option ℕ × Server → Option (List String) × Server
gossip_answer chunk_summaries (none, next) = (none, next)
gossip_answer chunk_summaries (some count, next) =
    (some (missing_chunk_ids chunk_summaries next.chunks), next)

-- the answer is the list of missing chunk ids; none is an exception, which is raised again
unfoldable pub handle_chunk_gossip :
    Outside
    → (String → Bool)
    → List ChunkSummary
    → List TombstoneEntry
    → Server
    → Option (List String) × Server
handle_chunk_gossip outside fails chunk_summaries tombstones self =
    gossip_answer chunk_summaries (apply_tombstones outside fails tombstones self)

-- the number of tombstones applied; none is the answer with success=False
unfoldable pub handle_push_tombstones :
    Outside → (String → Bool) → List TombstoneEntry → Server → Option ℕ × Server
handle_push_tombstones outside fails tombstones self =
    apply_tombstones outside fails tombstones self

pub record FetchChunkResponse : Type 0 where
  pub chunk_id : String
  pub checksum : String
  pub size : ℕ
  pub exists : Bool
  pub error_message : Option String

-- the message that comes before those of a read
unfoldable pub fetch_header : Option ChunkIndexEntry → List FetchChunkResponse
fetch_header none = []
fetch_header (some entry) =
    record {
      chunk_id = entry.chunk_id;
      checksum = entry.checksum;
      size = entry.size;
      exists = true;
      error_message = none;
    }
    ∷ []

unfoldable pub handle_fetch_chunk_data :
    ℕ → Option ℕ → String → Server → List FetchChunkResponse × List ReadChunkResponse × Status
handle_fetch_chunk_data piece_size raising chunk_id self =
    let entry = get_chunk chunk_id self.chunks in
    let (responses, status) = stream_entry piece_size raising chunk_id self.disk entry in
    (fetch_header entry, responses, status)

pub record ChunkStateSummary : Type 0 where
  pub chunk_ids : List String
  pub tombstone_ids : List String
  pub chunk_count : ℕ
  pub total_size_bytes : ℕ

unfoldable pub size_of : Option ChunkIndexEntry → ℕ
size_of none = 0
size_of (some entry) = entry.size

unfoldable pub total_size : List String → ChunkIndex → ℕ
total_size [] index = 0
total_size (cid ∷ rest) index = size_of (get_chunk cid index) + total_size rest index

unfoldable pub handle_get_chunk_state_summary : Server → ChunkStateSummary
handle_get_chunk_state_summary self = record {
  chunk_ids = get_all_chunk_ids self.chunks;
  tombstone_ids = get_all_tombstone_ids self.chunks;
  chunk_count = length (get_all_chunk_ids self.chunks);
  total_size_bytes = total_size (get_all_chunk_ids self.chunks) self.chunks;
}

-- the sets that a round computes from the peer's summary
unfoldable pub missing_from_me : ChunkStateSummary → ChunkIndex → List String
missing_from_me peer mine =
    difference (difference (set_of peer.chunk_ids) (get_all_chunk_ids mine))
      (get_all_tombstone_ids mine)

unfoldable pub missing_from_peer : ChunkStateSummary → ChunkIndex → List String
missing_from_peer peer mine =
    difference (difference (get_all_chunk_ids mine) peer.chunk_ids) peer.tombstone_ids

-- what the peer sends for a chunk id: none where the call or the transfer fails
abbrev pub Fetch : Type 0
Fetch = String → Option (Bytes × ChunkMetadata)

unfoldable pub fetched_entry : Outside → String → ChunkMetadata → ChunkIndexEntry
fetched_entry outside chunk_id metadata = record {
  chunk_id = chunk_id;
  file_id = metadata.file_id;
  chunk_index = metadata.chunk_index;
  size = metadata.total_size;
  checksum = metadata.checksum;
  filepath = get_chunk_path outside.chunks_dir chunk_id;
}

unfoldable pub store_fetched :
    Outside → Option Fault → String → Bytes → ChunkMetadata → Server → Server
store_fetched outside none chunk_id bytes metadata self = record {
  disk = write_chunk none chunk_id bytes self.disk;
  chunks = add_chunk (fetched_entry outside chunk_id metadata) self.chunks;
}
store_fetched outside (some fault) chunk_id bytes metadata self = record self {
  disk = write_chunk (some fault) chunk_id bytes self.disk;
}

unfoldable pub check_fetched :
    Outside → Option Fault → String → Option (Bytes × ChunkMetadata) → Server → Server
check_fetched outside fault chunk_id none self = self
check_fetched outside fault chunk_id (some (bytes, metadata)) self =
    if not (str_eq (outside.sha256 bytes) metadata.checksum)
    then self
    else store_fetched outside fault chunk_id bytes metadata self

-- the test before the await of `fetch_chunk_data`
unfoldable pub may_fetch : String → Server → Bool
may_fetch chunk_id self = not (is_tombstoned chunk_id self.chunks)

-- `meanwhile` is what the process does while the fetch of a chunk waits for the peer
unfoldable pub fetch_chunk :
    Outside
    → (String → Option Fault)
    → Fetch
    → (String → Server → Server)
    → String
    → Server
    → Server
fetch_chunk outside fault fetch meanwhile chunk_id self =
    if may_fetch chunk_id self
    then check_fetched outside (fault chunk_id) chunk_id (fetch chunk_id) (meanwhile chunk_id self)
    else self

-- _fetch_chunks_from_peer
unfoldable pub fetch_chunks_from_peer :
    Outside
    → (String → Option Fault)
    → Fetch
    → (String → Server → Server)
    → List String
    → Server
    → Server
fetch_chunks_from_peer outside fault fetch meanwhile [] self = self
fetch_chunks_from_peer outside fault fetch meanwhile (chunk_id ∷ rest) self =
    fetch_chunks_from_peer outside fault fetch meanwhile rest
      (fetch_chunk outside fault fetch meanwhile chunk_id self)

unfoldable pub pushed : Option ChunkIndexEntry → Option Bytes → List (Bytes × ChunkIndexEntry)
pushed none bytes = []
pushed (some entry) none = []
pushed (some entry) (some bytes) = (bytes, entry) ∷ []

-- _push_chunks_to_peer: what is handed to `push_chunk_data`
unfoldable pub push_chunks_to_peer : List String → Server → List (Bytes × ChunkIndexEntry)
push_chunks_to_peer [] self = []
push_chunks_to_peer (chunk_id ∷ rest) self =
    pushed (get_chunk chunk_id self.chunks) (read_chunk chunk_id self.disk)
    ++ push_chunks_to_peer rest self

unfoldable pub present : Option TombstoneEntry → List TombstoneEntry
present none = []
present (some tombstone) = tombstone ∷ []

unfoldable pub collect_tombstones : List String → ChunkIndex → List TombstoneEntry
collect_tombstones [] index = []
collect_tombstones (chunk_id ∷ rest) index =
    present (get_tombstone chunk_id index) ++ collect_tombstones rest index

-- _exchange_tombstones: what is handed to `push_tombstones`
unfoldable pub exchange_tombstones : List String → List String → ChunkIndex → List TombstoneEntry
exchange_tombstones my_tombstone_ids peer_tombstone_ids index =
    collect_tombstones (difference my_tombstone_ids peer_tombstone_ids) index
