-- ===== src/Chunkserver/Peers/Fetched.antt =====
-- A round of fetching of chunk_anti_entropy_manager.py leaves none of the chunks missing.
use redcloud_files.Base.{
  subst, sym, String, true, false, Option, none, some, List, [], ◌∷◌, ◌≡◌, refl, arith, eq_iff,
  eq_refl, str_eq, mem, Bool-cases, inl, inr,
}
use redcloud_files.Base.Dict
use redcloud_files.Base.Dict.{Dict}
use redcloud_files.Chunkserver.Storage.{Bytes, Fault}
use redcloud_files.Chunkserver.Index.{add_chunk, chunk_exists, is_tombstoned}
use redcloud_files.Chunkserver.Server.{Server, Outside, ChunkMetadata}
use redcloud_files.Chunkserver.Peers.{
  may_fetch, Fetch, store_fetched, fetched_entry, check_fetched, fetch_chunk,
  fetch_chunks_from_peer,
}

-- the peer answers, with data of the checksum it states
abbrev pub IsGood : Outside → Option (Bytes × ChunkMetadata) → Type 0
IsGood outside none = ⊥
IsGood outside (some (bytes, metadata)) = outside.sha256 bytes ≡ metadata.checksum

check_fetched-tombstones :
    (outside : Outside) (fault : Option Fault) (id : String)
    (answer : Option (Bytes × ChunkMetadata)) (self : Server)
    → (check_fetched outside fault id answer self).chunks.tombstones ≡ self.chunks.tombstones
unfolding check_fetched store_fetched add_chunk
check_fetched-tombstones outside fault id none self = refl
check_fetched-tombstones outside none id (some (bytes, metadata)) self = ground arith
check_fetched-tombstones outside (some fault) id (some (bytes, metadata)) self = ground arith

check_fetched-chunk_exists :
    (outside : Outside) (fault : Option Fault) (id x : String)
    (answer : Option (Bytes × ChunkMetadata)) (self : Server)
    → chunk_exists x self.chunks ≡ true
    → chunk_exists x (check_fetched outside fault id answer self).chunks ≡ true
unfolding check_fetched store_fetched add_chunk chunk_exists fetched_entry
check_fetched-chunk_exists outside fault id x none self h = h
check_fetched-chunk_exists outside none id x (some (bytes, metadata)) self h =
    ground (arith, Dict.has_key-insert id x (fetched_entry outside id metadata) self.chunks.index)
check_fetched-chunk_exists outside (some fault) id x (some (bytes, metadata)) self h = ground arith

check_fetched-stored :
    (outside : Outside) (id : String) (answer : Option (Bytes × ChunkMetadata)) (self : Server)
    → IsGood outside answer
    → chunk_exists id (check_fetched outside none id answer self).chunks ≡ true
unfolding check_fetched store_fetched add_chunk chunk_exists fetched_entry
check_fetched-stored outside id none self h = absurd h
check_fetched-stored outside id (some (bytes, metadata)) self h = ground (
  arith,
  h,
  eq_iff (outside.sha256 bytes) metadata.checksum,
  eq_refl id,
  Dict.has_key-insert id id (fetched_entry outside id metadata) self.chunks.index,
)

abbrev pub never : String → Option Fault
never id = none

-- while a fetch waits the process neither tombstones the chunk nor takes it out of the index
pub record Spares (x : String) (meanwhile : String → Server → Server) : Type 0 where
  pub untombstoned :
      (id : String) (self : Server)
      → is_tombstoned x self.chunks ≡ false
      → is_tombstoned x (meanwhile id self).chunks ≡ false
  pub held :
      (id : String) (self : Server)
      → chunk_exists x self.chunks ≡ true
      → chunk_exists x (meanwhile id self).chunks ≡ true

module _ (outside : Outside) (fetch : Fetch) (meanwhile : String → Server → Server) where
  fetch_chunk-is_tombstoned :
      (id x : String) (self : Server)
      → Spares x meanwhile
      → is_tombstoned x self.chunks ≡ false
      → is_tombstoned x (fetch_chunk outside never fetch meanwhile id self).chunks ≡ false
  unfolding fetch_chunk may_fetch is_tombstoned
  fetch_chunk-is_tombstoned id x self spares h = ground (
    arith,
    h,
    spares.untombstoned id self h,
    check_fetched-tombstones outside none id (fetch id) (meanwhile id self),
  )

  fetch_chunk-chunk_exists :
      (id x : String) (self : Server)
      → Spares x meanwhile
      → chunk_exists x self.chunks ≡ true
      → chunk_exists x (fetch_chunk outside never fetch meanwhile id self).chunks ≡ true
  unfolding fetch_chunk
  fetch_chunk-chunk_exists id x self spares h = ground (
    arith,
    h,
    check_fetched-chunk_exists outside none id x (fetch id) (meanwhile id self)
        (spares.held id self h),
  )

  fetch_chunk-stored :
      (id : String) (self : Server)
      → is_tombstoned id self.chunks ≡ false
      → IsGood outside (fetch id)
      → chunk_exists id (fetch_chunk outside never fetch meanwhile id self).chunks ≡ true
  unfolding fetch_chunk may_fetch
  fetch_chunk-stored id self h good =
      ground (arith, check_fetched-stored outside id (fetch id) (meanwhile id self) good)

  fetch_chunks-chunk_exists :
      (ids : List String) (x : String) (self : Server)
      → Spares x meanwhile
      → chunk_exists x self.chunks ≡ true
      → chunk_exists x (fetch_chunks_from_peer outside never fetch meanwhile ids self).chunks ≡ true
  unfolding fetch_chunks_from_peer
  fetch_chunks-chunk_exists [] x self spares h = h
  fetch_chunks-chunk_exists (id ∷ rest) x self spares h =
      fetch_chunks-chunk_exists rest x (fetch_chunk outside never fetch meanwhile id self) spares
        (fetch_chunk-chunk_exists id x self spares h)

  -- One round of fetching, in which no write fails and the peer serves each chunk asked for with its
  -- checksum, leaves a chunk asked for held, unless it is tombstoned at the start, if what the process
  -- does while a fetch waits for the peer neither tombstones that chunk nor takes it out of the index.
  pub fetch_chunks_complete :
      (ids : List String) (x : String) (self : Server)
      → Spares x meanwhile
      → ((id : String) → mem id ids ≡ true → IsGood outside (fetch id))
      → mem x ids ≡ true
      → is_tombstoned x self.chunks ≡ false
      → chunk_exists x (fetch_chunks_from_peer outside never fetch meanwhile ids self).chunks ≡ true
  unfolding fetch_chunks_from_peer mem
  fetch_chunks_complete [] x self spares good asked h = absurd (ground arith)
  fetch_chunks_complete (id ∷ rest) x self spares good asked h =
      let next = fetch_chunk outside never fetch meanwhile id self in
      elim (Bool-cases (str_eq x id)) [
        | inl e ↦
            let same = (eq_iff x id).0 e in
            let found : chunk_exists id next.chunks ≡ true =
              fetch_chunk-stored id self (rw same at h) (good id (ground (arith, eq_refl id))) in
            fetch_chunks-chunk_exists rest x next spares
              (subst (λ i. chunk_exists i next.chunks ≡ true) (sym same) found)
        | inr e ↦
            fetch_chunks_complete rest x next spares (λ i m. good i (ground (arith, m)))
              (ground (arith, asked)) (fetch_chunk-is_tombstoned id x self spares h)
      ]
