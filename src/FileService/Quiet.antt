-- ===== src/FileService/Quiet.antt =====
-- _cleanup_chunks of file_service.py where no call fails: each chunk is deleted.
use redcloud_files.Base.{String, Bool, true, false, List, [], ◌∷◌, ◌≡◌, refl, All, str_eq}
use redcloud_files.Chunkserver.Storage.{unlink_raises, Bytes}
use redcloud_files.Chunkserver.Server.{delete_and_bury, Server, Outside, handle_delete_chunk}
use redcloud_files.ChunkClient.{is_success, Net, next_fate, call_delete, delete_chunk}
use redcloud_files.ChunkClient.Stored.{IsHeld, quiet, deleted_other}
use redcloud_files.Replication.ChunkGc.{ChunkLiveness}
use redcloud_files.FileService.{
  World, after_delete, with_failure, try_delete, delete_each, mark_each, mark_chunks_for_gc,
  cleanup_chunks,
}

-- the chunkserver after a deletion of each
pub deleted_all : Outside → List String → Server → Server
deleted_all outside [] server = server
deleted_all outside (id ∷ ids) server =
    deleted_all outside ids (handle_delete_chunk outside false id server).1

pub deleted_all_other :
    (outside : Outside) (ids : List String) (chunk_id : String) (bytes : Bytes) (server : Server)
    → All (λ id. str_eq id chunk_id ≡ false) ids
    → IsHeld chunk_id bytes server
    → IsHeld chunk_id bytes (deleted_all outside ids server)
unfolding deleted_all
deleted_all_other outside [] chunk_id bytes server d h = h
deleted_all_other outside (id ∷ ids) chunk_id bytes server d h =
    deleted_all_other outside ids chunk_id bytes _ d.1
      (deleted_other outside id chunk_id bytes server d.0 h)

delete_each-quiet :
    (net : Net) (ids : List String) (server : Server)
    → delete_each net ids (quiet server) ≡ ([], quiet (deleted_all net.outside ids server))
unfolding delete_each with_failure try_delete after_delete delete_chunk next_fate call_delete
    deleted_all is_success handle_delete_chunk unlink_raises delete_and_bury
delete_each-quiet net [] server = refl
delete_each-quiet net (id ∷ ids) server =
    delete_each-quiet net ids (handle_delete_chunk net.outside false id server).1

mark_none :
    (fails : Bool) (now : String) (table : ChunkLiveness)
    → mark_chunks_for_gc fails now [] table ≡ table
unfolding mark_chunks_for_gc mark_each
mark_none true now table = refl
mark_none false now table = refl

-- where no call fails
pub cleanup_chunks-quiet :
    (net : Net) (now : String) (ids : List String) (w : World) (server : Server)
    → w.link ≡ quiet server
    → cleanup_chunks net now ids w ≡ record w { link = quiet (deleted_all net.outside ids server) }
unfolding cleanup_chunks
cleanup_chunks-quiet net now ids w server e =
    rw (e, delete_each-quiet net ids server, mark_none w.marking_fails now w.liveness) refl
