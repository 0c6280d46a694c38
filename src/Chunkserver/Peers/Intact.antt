-- ===== src/Chunkserver/Peers/Intact.antt =====
-- The handlers of the replication service keep the data of every indexed chunk.
use redcloud_files.Base.{
  ℕ, Bool, String, false, Option, none, some, List, [], ◌∷◌, ◌≡◌, arith, eq_iff,
}
use redcloud_files.Base.Dict
use redcloud_files.Base.Dict.{Dict}
use redcloud_files.Chunkserver.Storage.{Bytes, Fault}
use redcloud_files.Chunkserver.Index.{TombstoneEntry, add_tombstone, chunk_exists}
use redcloud_files.Chunkserver.Server.{Server, Outside, ChunkMetadata}
use redcloud_files.Chunkserver.Server.Intact.{
  IsIntact, IsClean, stored-Matches, failed-Matches, deleted-Matches,
}
use redcloud_files.Chunkserver.Peers.Buried.{add_count-server}
use redcloud_files.Chunkserver.Peers.{
  add_new, after_tombstone, apply_tombstone, apply_tombstones, fetched_entry, store_fetched,
  check_fetched,
}

-- a tombstone of a chunk that is not in the index leaves the files
unheld-Matches :
    (sha256 : Bytes → String) (self : Server) (now checksum chunk_id : String)
    → Dict.has_key chunk_id self.chunks.index ≡ false
    → IsIntact sha256 self
    → IsIntact sha256 (record self { chunks = add_tombstone now chunk_id checksum self.chunks })
unfolding add_tombstone
unheld-Matches sha256 self now checksum chunk_id h intact id = ground (arith, intact id)

apply_tombstone-IsIntact :
    (outside : Outside) (fails : String → Bool) (tombstone : TombstoneEntry) (self : Server)
    → IsIntact outside.sha256 self
    → IsIntact outside.sha256 (apply_tombstone outside fails tombstone self).1
unfolding apply_tombstone add_new chunk_exists
apply_tombstone-IsIntact outside fails tombstone self intact = ground (
  arith,
  intact,
  unheld-Matches outside.sha256 self outside.now tombstone.checksum tombstone.chunk_id,
  deleted-Matches outside.sha256 self outside.now tombstone.checksum tombstone.chunk_id intact,
)

after_tombstone-IsIntact :
    (sha256 : Bytes → String) (rest : Server → Option ℕ × Server) (p : Option ℕ × Server)
    → ((self : Server) → IsIntact sha256 self → IsIntact sha256 (rest self).1)
    → IsIntact sha256 p.1
    → IsIntact sha256 (after_tombstone rest p).1
unfolding after_tombstone
after_tombstone-IsIntact sha256 rest (none, next) k intact = intact
after_tombstone-IsIntact sha256 rest (some one, next) k intact =
    rw (add_count-server one (rest next)) (k next intact)

pub apply_tombstones-IsIntact :
    (outside : Outside) (fails : String → Bool) (tombstones : List TombstoneEntry) (self : Server)
    → IsIntact outside.sha256 self
    → IsIntact outside.sha256 (apply_tombstones outside fails tombstones self).1
unfolding apply_tombstones
apply_tombstones-IsIntact outside fails [] self intact = intact
apply_tombstones-IsIntact outside fails (tombstone ∷ rest) self intact =
    after_tombstone-IsIntact outside.sha256 (apply_tombstones outside fails rest) _
      (apply_tombstones-IsIntact outside fails rest)
      (apply_tombstone-IsIntact outside fails tombstone self intact)

store_fetched-IsIntact :
    (outside : Outside) (fault : Option Fault) (chunk_id : String) (bytes : Bytes)
    (metadata : ChunkMetadata) (self : Server)
    → IsClean fault
    → outside.sha256 bytes ≡ metadata.checksum
    → IsIntact outside.sha256 self
    → IsIntact outside.sha256 (store_fetched outside fault chunk_id bytes metadata self)
unfolding store_fetched fetched_entry
store_fetched-IsIntact outside none chunk_id bytes metadata self clean h intact =
    stored-Matches outside.sha256 self (fetched_entry outside chunk_id metadata) bytes h intact
store_fetched-IsIntact outside (some fault) chunk_id bytes metadata self clean h intact =
    failed-Matches outside.sha256 self fault chunk_id bytes clean intact

pub check_fetched-IsIntact :
    (outside : Outside) (fault : Option Fault) (chunk_id : String)
    (answer : Option (Bytes × ChunkMetadata)) (self : Server)
    → IsClean fault
    → IsIntact outside.sha256 self
    → IsIntact outside.sha256 (check_fetched outside fault chunk_id answer self)
unfolding check_fetched
check_fetched-IsIntact outside fault chunk_id none self clean intact = intact
check_fetched-IsIntact outside fault chunk_id (some (bytes, metadata)) self clean intact = ground (
  arith,
  intact,
  eq_iff (outside.sha256 bytes) metadata.checksum,
  store_fetched-IsIntact outside fault chunk_id bytes metadata self clean,
)
