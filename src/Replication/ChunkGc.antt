-- ===== src/Replication/ChunkGc.antt =====
-- controller/replication/chunk_gc_manager.py: chunks that no controller refers to are deleted. The
-- tables of the controllers are taken to stand still during a round.
pub mod Quorum
use redcloud_files.Base.{
  ℕ, String, Bool, true, false, Option, none, some, List, [], ◌∷◌, ◌++◌, length, take, ltb, ◌==◌,
  if◌then◌else◌,
}
use redcloud_files.Base.Dict
use redcloud_files.Base.Dict.{Dict}
use redcloud_files.Replication.Database.{Db}
use redcloud_files.Replication.Service.{chunk_rows, handle_query_chunk_liveness}

-- a row of the table `chunk_liveness`
pub record LivenessRow : Type 0 where
  pub referenced_by_files : List String
  pub last_verified_at : String
  pub marked_for_gc : ℕ

abbrev pub ChunkLiveness : Type 0
ChunkLiveness = Dict LivenessRow

unfoldable pub marked_row : String → Option LivenessRow → LivenessRow
marked_row now none = record { referenced_by_files = []; last_verified_at = now; marked_for_gc = 1 }
marked_row now (some row) = record row { last_verified_at = now; marked_for_gc = 1 }

unfoldable pub mark_chunks_for_gc : String → List String → ChunkLiveness → ChunkLiveness
mark_chunks_for_gc now [] table = table
mark_chunks_for_gc now (chunk_id ∷ rest) table =
    mark_chunks_for_gc now rest
      (Dict.insert chunk_id (marked_row now (Dict.lookup chunk_id table)) table)

unfoldable pub marked_ids : ChunkLiveness → List String
marked_ids [] = []
marked_ids ((chunk_id, row) ∷ rest) =
    let others = marked_ids rest in if row.marked_for_gc == 1 then chunk_id ∷ others else others

-- LIMIT 10
unfoldable pub get_chunks_marked_for_gc : ChunkLiveness → List String
get_chunks_marked_for_gc table = take 10 (marked_ids table)

unfoldable pub is_chunk_live_locally : String → Db → Bool
is_chunk_live_locally chunk_id db = ltb 0 (length (chunk_rows chunk_id db))

-- A peer is its database, or none where the call fails. The loop ends at the first that is live or
-- fails.
unfoldable pub answers_dead : String → Option Db → Bool
answers_dead chunk_id none = false
answers_dead chunk_id (some peer) =
    if (handle_query_chunk_liveness chunk_id peer).is_live then false else true

unfoldable pub peers_agree : String → List (Option Db) → Bool
peers_agree chunk_id [] = true
peers_agree chunk_id (peer ∷ rest) =
    if answers_dead chunk_id peer then peers_agree chunk_id rest else false

unfoldable pub check_gc_quorum : String → Db → List (Option Db) → Bool
check_gc_quorum chunk_id db peers =
    if is_chunk_live_locally chunk_id db then false else peers_agree chunk_id peers

unfoldable pub changed :
    (LivenessRow → LivenessRow) → String → Option LivenessRow → ChunkLiveness → ChunkLiveness
changed f chunk_id none table = table
changed f chunk_id (some row) table = Dict.insert chunk_id (f row) table

unfoldable pub unmark_chunk_for_gc : String → ChunkLiveness → ChunkLiveness
unmark_chunk_for_gc chunk_id table =
    changed (λ row. record row { marked_for_gc = 0 }) chunk_id (Dict.lookup chunk_id table) table

unfoldable pub clear_chunk : String → ChunkLiveness → ChunkLiveness
clear_chunk chunk_id table =
    changed (λ row. record row { referenced_by_files = []; marked_for_gc = 0 }) chunk_id
      (Dict.lookup chunk_id table) table

-- The chunk ids handed to the chunkserver, and the table. `fails` tells for which of them the
-- chunkserver's call raises; the table is then left as it is.
pub record GcState : Type 0 where
  pub requested : List String
  pub liveness : ChunkLiveness

unfoldable pub delete_chunk : (String → Bool) → String → GcState → GcState
delete_chunk fails chunk_id s = record {
  requested = s.requested ++ chunk_id ∷ [];
  liveness = if fails chunk_id then s.liveness else clear_chunk chunk_id s.liveness;
}

unfoldable pub process_chunk : (String → Bool) → Db → List (Option Db) → String → GcState → GcState
process_chunk fails db peers chunk_id s =
    if check_gc_quorum chunk_id db peers
    then delete_chunk fails chunk_id s
    else record s { liveness = unmark_chunk_for_gc chunk_id s.liveness }

unfoldable pub process_chunks :
    (String → Bool) → Db → List (Option Db) → List String → GcState → GcState
process_chunks fails db peers [] s = s
process_chunks fails db peers (chunk_id ∷ rest) s =
    process_chunks fails db peers rest (process_chunk fails db peers chunk_id s)

-- a round is skipped where no peer is found
unfoldable pub gc_round : (String → Bool) → Db → List (Option Db) → ChunkLiveness → GcState
gc_round fails db [] table = record { requested = []; liveness = table }
gc_round fails db (peer ∷ peers) table =
    process_chunks fails db (peer ∷ peers) (get_chunks_marked_for_gc table)
      (record { requested = []; liveness = table })
