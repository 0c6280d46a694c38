-- ===== src/Replication/ChunkGc/Quorum.antt =====
-- A chunk that some controller refers to, or that could not be checked, is not deleted.
use redcloud_files.Base.{
  String, Bool, true, false, Option, none, some, List, [], ◌∷◌, length, ltb, ◌≡◌, refl, arith, All,
  All-append, select, exists, str_eq, Bool-cases, inl, inr,
}
use redcloud_files.Replication.Database.{Db, Chunk}
use redcloud_files.Replication.Service.{chunk_rows, handle_query_chunk_liveness}
use redcloud_files.Replication.ChunkGc.{
  ChunkLiveness, get_chunks_marked_for_gc, is_chunk_live_locally, answers_dead, peers_agree,
  check_gc_quorum, GcState, delete_chunk, process_chunk, process_chunks, gc_round,
}

-- a file refers to the chunk
abbrev pub refers : String → Db → Bool
refers chunk_id db = exists (λ c. str_eq c.chunk_id chunk_id) db.chunks

-- the peer answered, and no file of it refers to the chunk
abbrev pub IsFree : String → Option Db → Type 0
IsFree chunk_id none = ⊥
IsFree chunk_id (some peer) = refers chunk_id peer ≡ false

select-none :
    (p : Chunk → Bool) (rows : List Chunk) → ltb 0 (length (select p rows)) ≡ exists p rows
unfolding select exists
select-none p [] = refl
select-none p (c ∷ rows) = ground (arith, select-none p rows)

answers_dead-IsFree :
    (chunk_id : String) (peer : Option Db)
    → answers_dead chunk_id peer ≡ true
    → IsFree chunk_id peer
unfolding answers_dead handle_query_chunk_liveness chunk_rows
answers_dead-IsFree chunk_id none h = absurd (ground arith)
answers_dead-IsFree chunk_id (some peer) h =
    ground (arith, select-none (λ c. str_eq c.chunk_id chunk_id) peer.chunks)

peers_agree-IsFree :
    (chunk_id : String) (peers : List (Option Db))
    → peers_agree chunk_id peers ≡ true
    → All (IsFree chunk_id) peers
unfolding peers_agree
peers_agree-IsFree chunk_id [] h = tt
peers_agree-IsFree chunk_id (peer ∷ rest) h = (
  answers_dead-IsFree chunk_id peer (ground arith),
  peers_agree-IsFree chunk_id rest (ground arith),
)

-- no controller refers to the chunk, and every peer answered
abbrev pub IsOrphan : Db → List (Option Db) → String → Type 0
IsOrphan db peers chunk_id = (refers chunk_id db ≡ false) × All (IsFree chunk_id) peers

check_gc_quorum-IsOrphan :
    (chunk_id : String) (db : Db) (peers : List (Option Db))
    → check_gc_quorum chunk_id db peers ≡ true
    → IsOrphan db peers chunk_id
unfolding check_gc_quorum is_chunk_live_locally chunk_rows
check_gc_quorum-IsOrphan chunk_id db peers h = (
  ground (arith, select-none (λ c. str_eq c.chunk_id chunk_id) db.chunks),
  peers_agree-IsFree chunk_id peers (ground arith),
)

module _ (fails : String → Bool) (db : Db) (peers : List (Option Db)) where
  abbrev Allowed : String → Type 0
  Allowed chunk_id = IsOrphan db peers chunk_id

  process_chunk-Allowed :
      (chunk_id : String) (s : GcState)
      → All Allowed s.requested
      → All Allowed (process_chunk fails db peers chunk_id s).requested
  unfolding process_chunk delete_chunk
  process_chunk-Allowed chunk_id s h = elim (Bool-cases (check_gc_quorum chunk_id db peers)) [
    | inl e ↦ rw e (
        All-append Allowed s.requested (chunk_id ∷ []) h
          (check_gc_quorum-IsOrphan chunk_id db peers e, tt))
    | inr e ↦ rw e h
  ]

  process_chunks-Allowed :
      (ids : List String) (s : GcState)
      → All Allowed s.requested
      → All Allowed (process_chunks fails db peers ids s).requested
  unfolding process_chunks
  process_chunks-Allowed [] s h = h
  process_chunks-Allowed (id ∷ ids) s h =
      process_chunks-Allowed ids (process_chunk fails db peers id s) (process_chunk-Allowed id s h)

-- Every chunk that a round asks the chunkserver to delete is one that no file of this controller or
-- of a peer refers to, and every peer answered about it.
pub gc_round-IsOrphan :
    (fails : String → Bool) (db : Db) (peers : List (Option Db)) (table : ChunkLiveness)
    → All (IsOrphan db peers) (gc_round fails db peers table).requested
unfolding gc_round
gc_round-IsOrphan fails db [] table = tt
gc_round-IsOrphan fails db (peer ∷ peers) table =
    process_chunks-Allowed fails db (peer ∷ peers) (get_chunks_marked_for_gc table)
      (record { requested = []; liveness = table }) tt
