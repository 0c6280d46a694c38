-- ===== src/Tests/Chunks.antt =====
-- One chunkserver, with a checksum that is easy to compute.
use redcloud_files.Base.{
  Bool, false, String, true, not, ◌&&◌, ◌||◌, Option, none, some, List, [], ◌∷◌, map, ◌≡◌, ◌≢◌,
  refl, arith, All, mem, Bool-cases, inl, inr, str_eq, eq_iff,
}
use redcloud_files.Base.Dict
use redcloud_files.Chunkserver.Storage.{
  delete_chunk as delete_file, get_chunk_path, Bytes, unlink_raises, read_chunk_streaming,
}
use redcloud_files.Chunkserver.Storage.Pieces.{concat, IsPiece, read_chunk_streaming_whole}
use redcloud_files.Chunkserver.Checksum.{update, extend, finalize}
use redcloud_files.Chunkserver.Index.{
  add_chunk, pos, ChunkIndexEntry, TombstoneEntry, is_tombstoned, chunk_exists, add_tombstone,
  remove_chunk, get_chunk,
}
use redcloud_files.Chunkserver.Index.Document.{
  field_count, arguments, expects, entry_from_json, entry_to_json, load_section, load_items,
  load_legacy, load_object, load_document, load_decoded, loaded, load_from_disk, save_to_disk,
}
use redcloud_files.Protocol.Json.{Json, object, field, end, look_up, get, as_str, as_int, as_nat}
use redcloud_files.Chunkserver.Index.Saved.{load_from_disk-save_to_disk}
use redcloud_files.Chunkserver.Server.{
  Server, Outside, ChunkMetadata, handle_delete_chunk, delete_and_bury, last_checksum,
  handle_write_chunk, handle_read_chunk, written, metadata_of, piece_of, done, receive,
  check_and_store, conclude_write, last_metadata, add_piece, with_calculator, go_on,
}
use redcloud_files.Chunkserver.Server.Intact.{IsIntact}
use redcloud_files.Chunkserver.Server.Transfers.{
  upload, handle_read_chunk-handle_write_chunk, handle_write_chunk_refused,
}
use redcloud_files.Chunkserver.Peers.{
  may_fetch, check_fetched, store_fetched, fetched_entry, ChunkSummary, handle_chunk_gossip,
  summary_ids, fetch_chunks_from_peer, Fetch,
}
use redcloud_files.Chunkserver.Peers.Missing.{tombstone_ids, handle_chunk_gossip-missing}
use redcloud_files.Chunkserver.Peers.Fetched.{never, Spares, fetch_chunks_complete}
use redcloud_files.Chunkserver.Peers.Buried.{IsBuried}
use redcloud_files.Chunkserver.History.{
  serve, start_fetch, end_fetch, Event, write, delete_one, gossip, push, fetch_started, fetch_ended,
  Process, run, run-IsIntact, run-IsBuried,
}

-- "even" or "odd" by the number of bytes
abbrev parity : Bytes → String
parity [] = "even"
parity (x ∷ []) = "odd"
parity (x ∷ y ∷ rest) = parity rest

abbrev outside : Outside
outside = record { sha256 = parity; now = "t1"; chunks_dir = "/chunks" }

abbrev metadata : ChunkMetadata
metadata = record {
  chunk_id = "k1";
  file_id = "f1";
  chunk_index = pos 0;
  total_size = 3;
  checksum = "odd";
}

abbrev start : Server
start = record { disk = []; chunks = record { index = []; tombstones = [] } }

abbrev entry : ChunkIndexEntry
entry = record {
  chunk_id = "k1";
  file_id = "f1";
  chunk_index = pos 0;
  size = 3;
  checksum = "odd";
  filepath = "/chunks/k1.chk";
}

abbrev grave : TombstoneEntry
grave = record { chunk_id = "k2"; deleted_at = "t0"; checksum = "even" }

abbrev full : Server
full = record {
  disk = ("k1", 7 ∷ 8 ∷ 9 ∷ []) ∷ [];
  chunks = record { index = ("k1", entry) ∷ []; tombstones = ("k2", grave) ∷ [] };
}

-- a file that holds the document as it is
abbrev encode : Json → Json
encode document = document

abbrev decode : Json → Option Json
decode document = some document

load_from_disk-save_to_disk_example :
    load_from_disk decode (some (save_to_disk encode full.chunks)) start.chunks
    ≡ (loaded, full.chunks)
unfolding Dict.has_key
load_from_disk-save_to_disk_example =
    load_from_disk-save_to_disk encode decode full.chunks start.chunks refl (refl, tt) (refl, tt)

-- a document without "chunks" is of the legacy format
legacy_lem :
    load_from_disk decode (some (object (field "k1" (entry_to_json entry) end))) full.chunks
    ≡ (loaded, record { index = ("k1", entry) ∷ []; tombstones = [] })
unfolding load_from_disk load_decoded load_document load_object load_legacy load_section load_items
    look_up entry_from_json entry_to_json expects arguments field_count get as_str as_int as_nat
    Dict.insert
legacy_lem = refl

handle_read_chunk-handle_write_chunk_example :
    ((handle_write_chunk outside none (upload metadata ((1 ∷ 2 ∷ []) ∷ (3 ∷ []) ∷ [])) start).0
      ≡ written)
    × ((read : List Bytes) × (handle_read_chunk 2 none "k1"
            (handle_write_chunk outside none
              (upload metadata ((1 ∷ 2 ∷ []) ∷ (3 ∷ []) ∷ []))
              start).1
          ≡ (metadata_of metadata ∷ map piece_of read, done))
        × (concat read ≡ 1 ∷ 2 ∷ 3 ∷ [])
        × All (IsPiece 2) read)
handle_read_chunk-handle_write_chunk_example =
    handle_read_chunk-handle_write_chunk outside 2 metadata ((1 ∷ 2 ∷ []) ∷ (3 ∷ []) ∷ []) start
      (omega arith) refl refl

refuses : (handle_write_chunk outside none (upload metadata ((1 ∷ 2 ∷ []) ∷ [])) start).0 ≢ written
unfolding handle_write_chunk receive check_and_store conclude_write last_metadata add_piece
    with_calculator go_on update extend finalize
refuses h = ground (arith, h)

handle_write_chunk_refused_example :
    (handle_write_chunk outside none (upload metadata ((1 ∷ 2 ∷ []) ∷ [])) start).1 ≡ start
handle_write_chunk_refused_example =
    handle_write_chunk_refused outside none (upload metadata ((1 ∷ 2 ∷ []) ∷ [])) start tt refuses

abbrev summaries : List ChunkSummary
summaries =
    record { chunk_id = "k1"; checksum = "odd"; size = 3 }
    ∷ record { chunk_id = "k3"; checksum = "odd"; size = 1 }
    ∷ []

abbrev unlinked : String → Bool
unlinked id = false

handle_chunk_gossip-missing_example :
    (missing : List String) × (next : Server) × (handle_chunk_gossip outside unlinked summaries
        (grave ∷ [])
        full
      ≡ (some missing, next))
    × (is_tombstoned "k3" next.chunks
        ≡ (mem "k3" (tombstone_ids (grave ∷ [])) || is_tombstoned "k3" full.chunks))
    × (mem "k3" missing ≡ (
        (mem "k3" (summary_ids summaries) && not (chunk_exists "k3" next.chunks))
        && not (is_tombstoned "k3" next.chunks)))
handle_chunk_gossip-missing_example =
    handle_chunk_gossip-missing outside unlinked summaries (grave ∷ []) "k3" full (λ id. refl)

abbrev answers : Fetch
answers id = some (1 ∷ [], record metadata { chunk_id = id; total_size = 1 })

-- while a fetch waits, the chunk "k1" is deleted
abbrev deletes_k1 : String → Server → Server
deletes_k1 id self = (handle_delete_chunk outside false "k1" self).1

deletes_k1-Spares : Spares "k3" deletes_k1
unfolding handle_delete_chunk delete_and_bury unlink_raises is_tombstoned chunk_exists add_tombstone
    remove_chunk
deletes_k1-Spares = record {
  untombstoned = λ id self h. ground (
    arith,
    h,
    eq_iff "k1" "k3",
    Dict.has_key-insert "k1" "k3"
        (record {
          chunk_id = "k1";
          deleted_at = "t1";
          checksum = last_checksum (get_chunk "k1" self.chunks);
        })
        self.chunks.tombstones,
  );
  held = λ id self h. ground (
    arith,
    h,
    eq_iff "k1" "k3",
    Dict.has_key-remove "k1" "k3" self.chunks.index,
    Dict.has_key-remove "k1" "k3" (Dict.remove "k1" self.chunks.index),
  );
}

fetch_chunks_complete_example :
    chunk_exists "k3"
      (fetch_chunks_from_peer outside never answers deletes_k1 ("k2" ∷ "k3" ∷ []) full).chunks
    ≡ true
unfolding mem is_tombstoned Dict.has_key
fetch_chunks_complete_example =
    fetch_chunks_complete outside answers deletes_k1 ("k2" ∷ "k3" ∷ []) "k3" full deletes_k1-Spares
      (λ id h. refl) refl refl

full-IsIntact : IsIntact parity full
unfolding Dict.lookup
full-IsIntact id = elim (Bool-cases (str_eq "k1" id)) [
  | inl e ↦ rw e ((eq_iff "k1" id).0 e, refl)
  | inr e ↦ rw e tt
]

abbrev history : List Event
history =
    write none (upload metadata ((1 ∷ 2 ∷ 3 ∷ []) ∷ []))
    ∷ fetch_started "k3"
    ∷ gossip unlinked summaries (grave ∷ [])
    ∷ delete_one false "k1"
    ∷ fetch_ended none "k3" (answers "k3")
    ∷ push unlinked (grave ∷ [])
    ∷ []

abbrev running : Process
running = record { server = full; fetching = [] }

run-IsIntact_example : IsIntact parity (run outside history running).server
run-IsIntact_example =
    run-IsIntact outside history running (tt, (tt, (tt, (tt, (tt, (tt, tt)))))) full-IsIntact

run-IsBuried_example : IsBuried "k2" (run outside history running).server.chunks
unfolding Dict.has_key is_tombstoned chunk_exists receive last_metadata add_piece with_calculator
    go_on update extend mem
run-IsBuried_example =
    run-IsBuried outside history "k2" running
      ((λ e. ground (arith, (eq_iff "k1" "k2").1 e)), (tt, (tt, (tt, (tt, (tt, tt))))))
      (record { tombstoned = refl; unheld = refl }) refl

-- a chunk that is deleted while its fetch waits for the peer is held again when the fetch ends
resurrected_lem :
    chunk_exists "k3"
      (run outside
        (fetch_started "k3" ∷ delete_one false "k3" ∷ fetch_ended none "k3" (answers "k3") ∷ [])
        running).server.chunks
    ≡ true
unfolding run serve start_fetch end_fetch may_fetch check_fetched store_fetched fetched_entry
    add_chunk handle_delete_chunk delete_and_bury unlink_raises delete_file add_tombstone
    remove_chunk is_tombstoned chunk_exists mem Dict.has_key Dict.insert Dict.remove get_chunk
    last_checksum get_chunk_path
resurrected_lem = refl

read_chunk_streaming_whole_example :
    (parts : List Bytes) × (read_chunk_streaming 2 "k1" full.disk ≡ some parts)
    × (concat parts ≡ 7 ∷ 8 ∷ 9 ∷ [])
    × All (IsPiece 2) parts
unfolding Dict.lookup
read_chunk_streaming_whole_example =
    read_chunk_streaming_whole 2 "k1" full.disk (7 ∷ 8 ∷ 9 ∷ []) (omega arith) refl
