-- ===== src/Tests/Transfers.antt =====
-- Files that are uploaded, downloaded and deleted, and messages of a client.
use redcloud_files.Base.{
  ◌==◌, String, false, none, some, List, [], ◌∷◌, ◌++◌, map, ◌≡◌, refl, arith, if◌then◌else◌,
  exists, All, take, find,
}
use redcloud_files.Base.Dict
use redcloud_files.VectorClock.{at}
use redcloud_files.Chunkserver.Storage.{unlink_raises, Bytes, pieces, drop}
use redcloud_files.Chunkserver.Storage.Pieces.{concat}
use redcloud_files.Chunkserver.Checksum.{update, extend, finalize}
use redcloud_files.Chunkserver.Index.{pos}
use redcloud_files.Replication.Log.{insert_operation, get_operation_by_id}
use redcloud_files.Replication.Files.{insert_tags}
use redcloud_files.Replication.Service.{get_current_vector_clock, clock_of_rows}
use redcloud_files.Chunkserver.Server.{
  handle_delete_chunk, Server, handle_write_chunk, conclude_write, check_and_store, store_chunk,
  receive, go_on, add_piece, with_calculator, last_metadata,
}
use redcloud_files.ChunkClient.{
  raising, is_success, call_delete, delete_chunk, Net, answered, lost, cut, unavailable, answer,
  raises, chunkserver_unavailable, write_chunk, write_chunk_internal, retry_with_backoff,
  after_attempt, next_fate, call_write, read_response, raised_by, request_generator,
}
use redcloud_files.ChunkClient.Once.{write_chunk_once}
use redcloud_files.ChunkClient.Stored.{IsHeld, quiet}
use redcloud_files.Replication.Database.{Db, empty, Chunk, Result, ok, err}
use redcloud_files.Replication.Emitter.{
  Emission, emit, emit_file_created, emit_chunks_created, with_id, get_and_increment_vector_clock,
}
use redcloud_files.Replication.ChunkGc.{gc_round}
use redcloud_files.Replication.ChunkGc.Quorum.{refers}
use redcloud_files.Queries.{query_by_tags_and_owner}
use redcloud_files.FileService.{
  mark_each, mark_chunks_for_gc, after_delete, try_delete, with_failure, delete_each,
  cleanup_chunks, upload_chunks, store_upload, undo_upload, after_write,
  split_into_chunks_with_data, number_chunks, chunks_payload, id_of, drop_existing, with_chunks,
  World, Fresh, Upload, upload_file, record_upload, write_chunks, uploaded, file_of,
}
use redcloud_files.FileService.Sending.{chunks_of}
use redcloud_files.FileService.RoundTrip.{splits_of, download_file-upload_file}
use redcloud_files.FileService.Undone.{IsUndone, upload_file-IsUndone}
use redcloud_files.FileService.Download.{stream_chunk, download_file, stream_file_data}
use redcloud_files.FileService.Retries.{stream_chunk_repeats}
use redcloud_files.FileService.Deletion.{delete_files}
use redcloud_files.FileService.Removed.{Deletes, delete_files-Deletes, gc_round-delete_files}
use redcloud_files.Repositories.{find_by_owner_and_name, create_file, create_chunks}

abbrev pub net : Net
net = record {
  outside = record { sha256 = λ bytes. "sum"; now = "t"; chunks_dir = "/chunks" };
  piece_size = 2;
  in_message = λ word e. false;
}

abbrev no_server : Server
no_server = record { disk = []; chunks = record { index = []; tombstones = [] } }

abbrev pub emission : String → Emission
emission id = record { controller_id = "A"; operation_id = id; timestamp_ms = 1; now = "t" }

abbrev fresh : Fresh
fresh = record {
  file_id = "f1";
  chunk_id = λ k. if k == 0 then "c0" else "c1";
  created_at = "t";
  now = "t";
  file_emission = emission "o1";
  chunks_emission = emission "o2";
}

abbrev file : Upload
file = record {
  file_name = "a.txt";
  file_data = 1 ∷ 2 ∷ 3 ∷ [];
  file_size = 3;
  tags = "work" ∷ [];
  owner_id = "u1";
}

abbrev world : World
world = record { db = empty; liveness = []; link = quiet no_server; marking_fails = false }

abbrev or_empty : Result Db → Db
or_empty (ok db) = db
or_empty (err e) = empty

abbrev stored : Db
stored = or_empty (record_upload fresh file (chunks_of (splits_of net 2 fresh file)) none empty)

write_chunk_once_example :
    write_chunk net "c0" "f1" 0
      (1 ∷ [])
      "sum"
      (record { server = no_server; fates = lost unavailable ∷ [] })
    ≡ (
      some
          (write_chunk_internal net "c0" "f1" 0
            (1 ∷ [])
            "sum"
            (record { server = no_server; fates = lost unavailable ∷ [] })).0,
      (write_chunk_internal net "c0" "f1" 0
          (1 ∷ [])
          "sum"
          (record { server = no_server; fates = lost unavailable ∷ [] })).1,
    )
write_chunk_once_example =
    write_chunk_once net "c0" "f1" 0 (1 ∷ []) "sum"
      (record { server = no_server; fates = lost unavailable ∷ [] })

stored_lem :
    record_upload fresh file
      (chunks_of (splits_of net 2 fresh file))
      (find_by_owner_and_name "u1" "a.txt" empty)
      empty
    ≡ ok stored
unfolding record_upload create_file drop_existing with_chunks create_chunks emit_file_created
    emit_chunks_created emit with_id insert_operation get_operation_by_id
    get_and_increment_vector_clock get_current_vector_clock clock_of_rows at Dict.insert Dict.lookup
    find exists split_into_chunks_with_data number_chunks pieces take drop insert_tags
    find_by_owner_and_name file_of chunks_payload id_of
stored_lem = refl

download_file-upload_file_example :
    ((upload_file net 2 fresh file world).0
      ≡ answer (uploaded fresh file (find_by_owner_and_name "u1" "a.txt" empty)))
    × ((upload_file net 2 fresh file world).1.db ≡ stored)
    × ((chunks : List Chunk) × (download_file "f1" "u1" (upload_file net 2 fresh file world).1.db
          ≡ answer (file_of fresh file, chunks))
        × ((parts : List Bytes) × ((stream_file_data net chunks
                (upload_file net 2 fresh file world).1.link).0
              ≡ (parts, none))
            × (concat parts ≡ 1 ∷ 2 ∷ 3 ∷ [])))
unfolding exists
download_file-upload_file_example =
    download_file-upload_file net 2 fresh file world no_server stored (omega arith) (omega arith)
      (λ e. cc) refl stored_lem (λ e. cc) refl

-- the second chunk does not reach the chunkserver
abbrev failing : World
failing = record {
  db = empty;
  liveness = [];
  marking_fails = false;
  link = record { server = no_server; fates = answered none ∷ lost unavailable ∷ [] };
}

raised : (upload_file net 2 fresh file failing).0 ≡ raises chunkserver_unavailable
unfolding upload_file upload_chunks store_upload undo_upload write_chunks after_write write_chunk
    retry_with_backoff after_attempt write_chunk_internal next_fate call_write read_response
    raised_by handle_write_chunk conclude_write check_and_store store_chunk receive go_on add_piece
    with_calculator last_metadata request_generator update extend finalize
    split_into_chunks_with_data number_chunks pieces take drop
raised = refl

upload_file-IsUndone_example :
    IsUndone
      (map
        (λ (c : Chunk). c.chunk_id)
        (write_chunks net (splits_of net 2 fresh file) [] failing.link).chunks_metadata)
      failing
      (upload_file net 2 fresh file failing).1
upload_file-IsUndone_example =
    upload_file-IsUndone net 2 fresh file failing (tt, (tt, tt)) refl (λ e. cc) raised

abbrev holding : Server
holding = record {
  disk = ("c0", 1 ∷ 2 ∷ 3 ∷ []) ∷ [];
  chunks = record {
    index =
        (
          "c0",
          record {
            chunk_id = "c0";
            file_id = "f1";
            chunk_index = pos 0;
            size = 3;
            checksum = "sum";
            filepath = "p";
          },
        )
        ∷ [];
    tombstones = [];
  };
}

held : IsHeld "c0" (1 ∷ 2 ∷ 3 ∷ []) holding
unfolding Dict.lookup
held = record { stored = refl; indexed = (_, refl) }

stream_chunk_repeats_example :
    (parts : List Bytes) × (concat parts ≡ 1 ∷ 2 ∷ 3 ∷ [])
    × ((stream_chunk net 5 "c0" (record { server = holding; fates = cut 2 unavailable ∷ [] })).0
        ≡ (take 1 parts ++ parts, none))
stream_chunk_repeats_example =
    stream_chunk_repeats net 4 1 unavailable "c0" (1 ∷ 2 ∷ 3 ∷ []) holding (omega arith) refl held

abbrev tagged : World
tagged = record { db = stored; liveness = []; link = quiet holding; marking_fails = false }

-- where removing the file raises the chunk counts as deleted, and is neither tried again nor marked
kept_lem :
    cleanup_chunks net "t"
      ("c0" ∷ [])
      (record tagged { link = record { server = holding; fates = raising 0 ∷ [] } })
    ≡ tagged
unfolding cleanup_chunks delete_each with_failure try_delete after_delete delete_chunk next_fate
    call_delete is_success handle_delete_chunk unlink_raises mark_chunks_for_gc mark_each
    Dict.has_key
kept_lem = refl

delete_files-Deletes_example :
    Deletes
      (query_by_tags_and_owner ("work" ∷ []) "u1" stored)
      tagged
      (delete_files net emission "t" ("work" ∷ []) "u1" tagged)
delete_files-Deletes_example =
    delete_files-Deletes net emission "t" ("work" ∷ []) "u1" tagged tt refl

gc_round-delete_files_example :
    All
      (λ id. refers id stored ≡ false)
      (gc_round
        (λ id. false)
        (delete_files net emission "t" ("work" ∷ []) "u1" tagged).1.db
        (some empty ∷ [])
        (("c0", record { referenced_by_files = []; last_verified_at = "t"; marked_for_gc = 1 })
          ∷ [])).requested
gc_round-delete_files_example =
    gc_round-delete_files net emission "t" ("work" ∷ []) "u1" tagged (λ id. false) (some empty ∷ [])
      (("c0", record { referenced_by_files = []; last_verified_at = "t"; marked_for_gc = 1 }) ∷ [])
