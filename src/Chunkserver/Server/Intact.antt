-- ===== src/Chunkserver/Server/Intact.antt =====
-- Every chunk of the index has its data in the files, with the checksum of the entry.
use redcloud_files.Base.{
  Bool-cases, Bool, ap, sym, refl, [], ◌∷◌, String, Option, none, some, List, ◌≡◌, arith, eq_iff,
  eq_refl, Option-cases, inl, inr,
}
use redcloud_files.Base.Dict
use redcloud_files.Base.Dict.{Dict}
use redcloud_files.Chunkserver.Storage.{Bytes, Fault, write_chunk, broken_off, delete_chunk}
use redcloud_files.Chunkserver.Checksum.{update, extend, finalize}
use redcloud_files.Chunkserver.Index.{
  ChunkIndex, ChunkIndexEntry, add_chunk, remove_chunk, add_tombstone, get_chunk,
}
use redcloud_files.Chunkserver.Server.{
  unlink_raises, delete_and_bury, Server, Outside, ChunkMetadata, WriteChunkRequest,
  handle_write_chunk, handle_delete_chunk, Received, receive, nothing_received, add_piece,
  with_calculator, go_on, last_metadata, conclude_write, check_and_store, store_chunk, entry_of,
  last_checksum,
}

-- the entry is about this chunk id, and the checksum is that of the data
abbrev pub Matches : (Bytes → String) → String → Option ChunkIndexEntry → Option Bytes → Type 0
Matches sha256 chunk_id none bytes = Unit
Matches sha256 chunk_id (some entry) none = ⊥
Matches sha256 chunk_id (some entry) (some bytes) =
    (entry.chunk_id ≡ chunk_id) × (sha256 bytes ≡ entry.checksum)

abbrev pub IsIntact : (Bytes → String) → Server → Type 0
IsIntact sha256 self =
    (chunk_id : String)
    → Matches sha256 chunk_id (Dict.lookup chunk_id self.chunks.index)
        (Dict.lookup chunk_id self.disk)

-- no failure, or one that did not open the file
abbrev pub IsClean : Option Fault → Type 0
IsClean none = Unit
IsClean (some fault) = fault.written ≡ none

module _ (sha256 : Bytes → String) where
  pub stored-Matches :
      (self : Server) (entry : ChunkIndexEntry) (bytes : Bytes)
      → sha256 bytes ≡ entry.checksum
      → IsIntact sha256 self
      → IsIntact sha256 (record {
        disk = write_chunk none entry.chunk_id bytes self.disk;
        chunks = add_chunk entry self.chunks;
      })
  unfolding write_chunk add_chunk
  stored-Matches self entry bytes h intact chunk_id = ground (
    arith,
    intact chunk_id,
    Dict.lookup-insert entry.chunk_id chunk_id entry self.chunks.index,
    Dict.lookup-insert entry.chunk_id chunk_id bytes self.disk,
    eq_iff entry.chunk_id chunk_id,
  )

  pub failed-Matches :
      (self : Server) (fault : Fault) (chunk_id : String) (bytes : Bytes)
      → fault.written ≡ none
      → IsIntact sha256 self
      → IsIntact sha256 (record self { disk = write_chunk (some fault) chunk_id bytes self.disk })
  unfolding write_chunk broken_off
  failed-Matches self fault chunk_id bytes h intact id = ground (arith, intact id)

  -- the chunk leaves both the index and the disk
  pub deleted-Matches :
      (self : Server) (now checksum chunk_id : String)
      → IsIntact sha256 self
      → IsIntact sha256 (record {
        disk = (delete_chunk chunk_id self.disk).1;
        chunks = add_tombstone now chunk_id checksum self.chunks;
      })
  unfolding delete_chunk add_tombstone
  deleted-Matches self now checksum chunk_id intact id = ground (
    arith,
    intact id,
    Dict.lookup-remove chunk_id id self.chunks.index,
    Dict.lookup-remove chunk_id id self.disk,
    eq_iff chunk_id id,
    Dict.lookup-none chunk_id self.chunks.index,
    Dict.lookup-none chunk_id self.disk,
  )

store_chunk-IsIntact :
    (outside : Outside) (fault : Option Fault) (metadata : ChunkMetadata) (bytes : Bytes)
    (self : Server)
    → IsClean fault
    → outside.sha256 bytes ≡ metadata.checksum
    → IsIntact outside.sha256 self
    → IsIntact outside.sha256 (store_chunk outside fault metadata bytes self).1
unfolding store_chunk entry_of
store_chunk-IsIntact outside none metadata bytes self clean h intact =
    stored-Matches outside.sha256 self (entry_of outside metadata) bytes h intact
store_chunk-IsIntact outside (some fault) metadata bytes self clean h intact =
    failed-Matches outside.sha256 self fault metadata.chunk_id bytes clean intact

check_and_store-IsIntact :
    (outside : Outside) (fault : Option Fault) (metadata : Option ChunkMetadata) (computed : String)
    (bytes : Bytes) (self : Server)
    → IsClean fault
    → outside.sha256 bytes ≡ computed
    → IsIntact outside.sha256 self
    → IsIntact outside.sha256 (check_and_store outside fault metadata computed bytes self).1
unfolding check_and_store
check_and_store-IsIntact outside fault none computed bytes self clean h intact = intact
check_and_store-IsIntact outside fault (some metadata) computed bytes self clean h intact = ground (
  arith,
  h,
  eq_iff computed metadata.checksum,
  store_chunk-IsIntact outside fault metadata bytes self clean,
)

-- the calculator has seen the bytes of the buffer
abbrev pub Follows : Received → Type 0
Follows r = r.checksum_calculator.hashed ≡ r.data_buffer

add_piece-Follows :
    (piece : Option Bytes) (r : Received) {r' : Received}
    → Follows r
    → add_piece piece r ≡ some r'
    → Follows r'
unfolding add_piece with_calculator update extend
add_piece-Follows none r f e = ground arith
add_piece-Follows (some piece) r f e = ground (arith, f)

receive-Follows :
    (requests : List (Option WriteChunkRequest)) (r : Received) {r' : Received}
    → Follows r
    → receive requests r ≡ some r'
    → Follows r'
unfolding receive go_on
receive-Follows [] r f e = ground arith
receive-Follows (none ∷ rest) r f e = absurd (ground arith)
receive-Follows (some request ∷ rest) r {r'} f e =
    let start : Received = record r { metadata = last_metadata request.metadata r.metadata } in
    elim (Option-cases (add_piece request.piece start)) [
      | inl none_left ↦ absurd (ground (arith, none_left))
      | inr (next, found) ↦
          receive-Follows rest next {r' = r'} (add_piece-Follows request.piece start f found)
            (ground (arith, found))
    ]

-- WriteChunk keeps every indexed chunk with data of its checksum, whatever the messages, unless a
-- write failed after it opened the file.
pub handle_write_chunk-IsIntact :
    (outside : Outside) (fault : Option Fault) (requests : List (Option WriteChunkRequest))
    (self : Server)
    → IsClean fault
    → IsIntact outside.sha256 self
    → IsIntact outside.sha256 (handle_write_chunk outside fault requests self).1
unfolding handle_write_chunk conclude_write finalize
handle_write_chunk-IsIntact outside fault requests self clean intact =
    elim (Option-cases (receive requests nothing_received)) [
      | inl e ↦ rw e intact
      | inr (r, e) ↦ rw e (
          check_and_store-IsIntact outside fault r.metadata
            (outside.sha256 r.checksum_calculator.hashed) r.data_buffer self clean
            (ap outside.sha256 (sym (receive-Follows requests nothing_received refl e))) intact)
    ]

pub add_tombstone-remove_chunk :
    (now checksum chunk_id : String) (index : ChunkIndex)
    → add_tombstone now chunk_id checksum (remove_chunk chunk_id index).1
      ≡ add_tombstone now chunk_id checksum index
unfolding add_tombstone remove_chunk
add_tombstone-remove_chunk now checksum chunk_id index =
    ground (arith, Dict.has_key-remove chunk_id chunk_id index.index, eq_refl chunk_id)

-- DeleteChunk keeps every indexed chunk with data of its checksum.
pub handle_delete_chunk-IsIntact :
    (outside : Outside) (fails : Bool) (chunk_id : String) (self : Server)
    → IsIntact outside.sha256 self
    → IsIntact outside.sha256 (handle_delete_chunk outside fails chunk_id self).1
unfolding handle_delete_chunk delete_and_bury
handle_delete_chunk-IsIntact outside fails chunk_id self intact =
    let checksum = last_checksum (get_chunk chunk_id self.chunks) in
    elim (Bool-cases (unlink_raises fails chunk_id self.disk)) [
      | inl e ↦ rw e intact
      | inr e ↦
          rw (e, add_tombstone-remove_chunk outside.now checksum chunk_id self.chunks)
            (deleted-Matches outside.sha256 self outside.now checksum chunk_id intact)
    ]
