-- ===== src/Chunkserver/Peers/Buried.antt =====
-- A deleted chunk does not come back from a peer.
use redcloud_files.Base.{
  ℕ, Bool, subst, sym, refl, ◌≢◌, inl, inr, Bool-cases, String, true, false, Option, none, some,
  List, [], ◌∷◌, ◌≡◌, arith, eq_iff, eq_refl,
}
use redcloud_files.Base.Dict
use redcloud_files.Chunkserver.Storage.{Bytes, Fault, unlink_raises}
use redcloud_files.Chunkserver.Index.{
  ChunkIndex, TombstoneEntry, add_chunk, add_tombstone, remove_chunk, chunk_exists, is_tombstoned,
  get_chunk,
}
use redcloud_files.Chunkserver.Server.{
  Server, Outside, ChunkMetadata, handle_delete_chunk, delete_and_bury, last_checksum,
}
use redcloud_files.Chunkserver.Server.Intact.{add_tombstone-remove_chunk}
use redcloud_files.Chunkserver.Peers.{
  add_new, add_count, after_tombstone, apply_tombstone, apply_tombstones, store_fetched,
  fetched_entry, check_fetched,
}

pub add_count-server : (one : ℕ) (p : Option ℕ × Server) → (add_count one p).1 ≡ p.1
unfolding add_count
add_count-server one (none, last) = refl
add_count-server one (some count, last) = refl

-- deleted, and not in the index
pub record IsBuried (chunk_id : String) (index : ChunkIndex) : Type 0 where
  pub tombstoned : is_tombstoned chunk_id index ≡ true
  pub unheld : chunk_exists chunk_id index ≡ false

pub add_tombstone-IsBuried :
    (now checksum chunk_id : String) (index : ChunkIndex)
    → IsBuried chunk_id (add_tombstone now chunk_id checksum index)
unfolding add_tombstone is_tombstoned chunk_exists
add_tombstone-IsBuried now checksum chunk_id index = record {
  tombstoned = ground (
    arith,
    eq_refl chunk_id,
    Dict.has_key-insert chunk_id chunk_id
        (record { chunk_id = chunk_id; deleted_at = now; checksum = checksum }) index.tombstones,
  );
  unheld = ground (arith, eq_refl chunk_id, Dict.has_key-remove chunk_id chunk_id index.index);
}

-- a further tombstone, of this chunk or of another
pub other_tombstone-IsBuried :
    (now checksum chunk_id other : String) (index : ChunkIndex)
    → IsBuried chunk_id index
    → IsBuried chunk_id (add_tombstone now other checksum index)
unfolding add_tombstone is_tombstoned chunk_exists
other_tombstone-IsBuried now checksum chunk_id other index b = record {
  tombstoned = ground (
    arith,
    b.tombstoned,
    Dict.has_key-insert other chunk_id
        (record { chunk_id = other; deleted_at = now; checksum = checksum }) index.tombstones,
  );
  unheld = ground (arith, b.unheld, Dict.has_key-remove other chunk_id index.index);
}

-- After DeleteChunk, where no removal of a file raises, the chunk is tombstoned and not indexed.
pub handle_delete_chunk-IsBuried :
    (outside : Outside) (chunk_id : String) (self : Server)
    → IsBuried chunk_id (handle_delete_chunk outside false chunk_id self).1.chunks
unfolding handle_delete_chunk delete_and_bury unlink_raises
handle_delete_chunk-IsBuried outside chunk_id self =
    add_tombstone-IsBuried outside.now (last_checksum (get_chunk chunk_id self.chunks)) chunk_id
      (remove_chunk chunk_id self.chunks).1

-- a deletion of any chunk digs up none
pub delete_one-IsBuried :
    (outside : Outside) (fails : Bool) (id chunk_id : String) (self : Server)
    → IsBuried chunk_id self.chunks
    → IsBuried chunk_id (handle_delete_chunk outside fails id self).1.chunks
unfolding handle_delete_chunk delete_and_bury
delete_one-IsBuried outside fails id chunk_id self b =
    let checksum = last_checksum (get_chunk id self.chunks) in
    let removed : IsBuried chunk_id
        (add_tombstone outside.now id checksum (remove_chunk id self.chunks).1) =
      subst (IsBuried chunk_id)
        (sym (add_tombstone-remove_chunk outside.now checksum id self.chunks))
        (other_tombstone-IsBuried outside.now checksum chunk_id id self.chunks b) in
    elim (Bool-cases (unlink_raises fails id self.disk)) [ inl e ↦ rw e b | inr e ↦ rw e removed ]

module _ (outside : Outside) (fails : String → Bool) where
  apply_tombstone-IsBuried :
      (tombstone : TombstoneEntry) (chunk_id : String) (self : Server)
      → IsBuried chunk_id self.chunks
      → IsBuried chunk_id (apply_tombstone outside fails tombstone self).1.chunks
  unfolding apply_tombstone add_new
  apply_tombstone-IsBuried tombstone chunk_id self b = ground (
    arith,
    b,
    other_tombstone-IsBuried outside.now tombstone.checksum chunk_id tombstone.chunk_id self.chunks
        b,
  )

  after_tombstone-IsBuried :
      (chunk_id : String) (rest : Server → Option ℕ × Server) (p : Option ℕ × Server)
      → ((self : Server) → IsBuried chunk_id self.chunks → IsBuried chunk_id (rest self).1.chunks)
      → IsBuried chunk_id p.1.chunks
      → IsBuried chunk_id (after_tombstone rest p).1.chunks
  unfolding after_tombstone
  after_tombstone-IsBuried chunk_id rest (none, next) k b = b
  after_tombstone-IsBuried chunk_id rest (some one, next) k b =
      rw (add_count-server one (rest next)) (k next b)

  pub apply_tombstones-IsBuried :
      (tombstones : List TombstoneEntry) (chunk_id : String) (self : Server)
      → IsBuried chunk_id self.chunks
      → IsBuried chunk_id (apply_tombstones outside fails tombstones self).1.chunks
  unfolding apply_tombstones
  apply_tombstones-IsBuried [] chunk_id self b = b
  apply_tombstones-IsBuried (tombstone ∷ rest) chunk_id self b =
      after_tombstone-IsBuried chunk_id (apply_tombstones outside fails rest) _
        (apply_tombstones-IsBuried rest chunk_id)
        (apply_tombstone-IsBuried tombstone chunk_id self b)

store_fetched-IsBuried :
    (outside : Outside) (fault : Option Fault) (chunk_id other : String) (bytes : Bytes)
    (metadata : ChunkMetadata) (self : Server)
    → other ≢ chunk_id
    → IsBuried chunk_id self.chunks
    → IsBuried chunk_id (store_fetched outside fault other bytes metadata self).chunks
unfolding store_fetched fetched_entry add_chunk is_tombstoned chunk_exists
store_fetched-IsBuried outside none chunk_id other bytes metadata self h b = record {
  tombstoned = b.tombstoned;
  unheld = ground (
    arith,
    b.unheld,
    h,
    eq_iff other chunk_id,
    Dict.has_key-insert other chunk_id (fetched_entry outside other metadata) self.chunks.index,
  );
}
store_fetched-IsBuried outside (some fault) chunk_id other bytes metadata self h b = b

pub check_fetched-IsBuried :
    (outside : Outside) (fault : Option Fault) (chunk_id other : String)
    (answer : Option (Bytes × ChunkMetadata)) (self : Server)
    → other ≢ chunk_id
    → IsBuried chunk_id self.chunks
    → IsBuried chunk_id (check_fetched outside fault other answer self).chunks
unfolding check_fetched
check_fetched-IsBuried outside fault chunk_id other none self h b = b
check_fetched-IsBuried outside fault chunk_id other (some (bytes, metadata)) self h b =
    ground (arith, b, store_fetched-IsBuried outside fault chunk_id other bytes metadata self h b)
