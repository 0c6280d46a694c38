-- ===== src/Tests/Answers.antt =====
-- A controller that answers peers, emits operations, collects garbage and serves tag queries.
use redcloud_files.Base.{
  ◌≤◌, max, String, true, false, not, ◌&&◌, ◌||◌, some, [], ◌∷◌, map, ◌≡◌, refl, arith, str_eq, mem,
  exists, find, select, All, sort_by, insert_sorted,
}
use redcloud_files.Base.Dict
use redcloud_files.VectorClock.{VectorClock, at, happens_before}
use redcloud_files.VectorClock.Order.{IsClock}
use redcloud_files.Replication.Operation.{unknown}
use redcloud_files.Replication.Database.{Db, empty, ok}
use redcloud_files.Replication.Log.{
  OperationSummary, sequence_of, has_id, get_operation_by_id, insert_operation,
}
use redcloud_files.Replication.Users.{clock, finish}
use redcloud_files.Replication.Files.{is_tag, apply_file_created, insert_file}
use redcloud_files.Replication.Applier.{
  apply_operation, apply_operation_within, store_operation, attempt, dispatch, conclude,
  check_and_apply_deferred_operations,
}
use redcloud_files.Replication.AntiEntropy.{sort_operations_by_causality}
use redcloud_files.Replication.Service.{
  handle_gossip, handle_push_operations, push_each, push_next, get_current_vector_clock,
  clock_of_rows,
}
use redcloud_files.Replication.Service.Gossip.{handle_gossip_merges}
use redcloud_files.Replication.Emitter.{Emission, emit}
use redcloud_files.Replication.Emitter.Emitted.{current, emitted, emit-happens_before}
use redcloud_files.Replication.ChunkGc.{ChunkLiveness, gc_round}
use redcloud_files.Replication.ChunkGc.Quorum.{IsOrphan, gc_round-IsOrphan}
use redcloud_files.Queries.{query_by_tags_and_owner}
use redcloud_files.Queries.AllTags.{
  has_each, query_by_tags_and_owner-has_each, query_by_tags_and_owner_repeated,
}
use redcloud_files.Replication.Files.Labels.{has_tag}
use redcloud_files.TagService.{add_tags_to_files, remove_tags_from_files}
use redcloud_files.TagService.Additions.{answered, add_tags_to_files_adds}
use redcloud_files.TagService.Labels.{remove_tags_from_files_keeps}
use redcloud_files.Tests.Controller.{env, node, creation}

abbrev table : Db
table = record empty {
  vector_clock_state = ("c1", record { sequence = 4; last_seen_at = "t1" }) ∷ [];
  operations = creation ∷ [];
  chunks =
      record { chunk_id = "k1"; file_id = "f1"; chunk_index = 0; size = 3; checksum = "odd" } ∷ [];
  files =
      record { file_id = "f1"; name = "report.txt"; size = 3; owner_id = "u1"; created_at = "t1" }
      ∷ [];
  tags = record { file_id = "f1"; tag = "work" } ∷ [];
}

abbrev summary : OperationSummary
summary = record {
  operation_id = "o4";
  operation_type = "FILE_CREATED";
  user_id = "u1";
  timestamp_ms = 20;
  vector_clock = [];
}

handle_gossip_merges_example :
    (sequence_of
        (handle_gossip "t2" (("c2", 7) ∷ []) (summary ∷ []) table).1.vector_clock_state
        "c2"
      ≡ max (sequence_of table.vector_clock_state "c2") (at (("c2", 7) ∷ []) "c2"))
    × (at (handle_gossip "t2" (("c2", 7) ∷ []) (summary ∷ []) table).0.vector_clock "c2"
        ≡ max (sequence_of table.vector_clock_state "c2") (at (("c2", 7) ∷ []) "c2"))
    × (mem "o4" (handle_gossip "t2" (("c2", 7) ∷ []) (summary ∷ []) table).0.missing_operation_ids
        ≡ (mem "o4" (map (λ op. op.operation_id) (summary ∷ []))
            && not (exists (has_id "o4") table.operations)))
unfolding Dict.has_key
handle_gossip_merges_example =
    handle_gossip_merges "t2" (("c2", 7) ∷ []) (summary ∷ []) table "c2" "o4" (refl, tt) (refl, tt)

abbrev emission : Emission
emission = record { controller_id = "c2"; operation_id = "o9"; timestamp_ms = 30; now = "t3" }

abbrev seen : VectorClock
seen = record { clocks = ("c1", 2) ∷ [] }

seen-IsClock : IsClock seen
unfolding Dict.has_key
seen-IsClock = record { distinct = (refl, tt); positive = (omega arith, tt) }

current-IsClock : IsClock (current table)
unfolding Dict.has_key get_current_vector_clock clock_of_rows
current-IsClock = record { distinct = (refl, tt); positive = (omega arith, tt) }

seen-covered : (k : String) → at seen.clocks k ≤ sequence_of table.vector_clock_state k
unfolding at sequence_of Dict.lookup
seen-covered k = ground arith

emit-happens_before_example :
    (db' : Db) × (emit emission (unknown "X") "u1" table ≡ ok ("o9", db'))
    × (get_operation_by_id "o9" db' ≡ some (emitted emission (unknown "X") "u1" table))
    × (happens_before seen (clock (emitted emission (unknown "X") "u1" table)) ≡ true)
    × ((k : String)
        → sequence_of db'.vector_clock_state k
          ≡ at (emitted emission (unknown "X") "u1" table).vector_clock k)
unfolding get_operation_by_id find
emit-happens_before_example =
    emit-happens_before emission (unknown "X") "u1" table seen refl seen-IsClock current-IsClock
      seen-covered

abbrev marked : ChunkLiveness
marked =
    ("k1", record { referenced_by_files = []; last_verified_at = "t1"; marked_for_gc = 1 }) ∷ []

gc_round-IsOrphan_example :
    All
      (IsOrphan empty (some table ∷ []))
      (gc_round (λ id. false) empty (some table ∷ []) marked).requested
gc_round-IsOrphan_example = gc_round-IsOrphan (λ id. false) empty (some table ∷ []) marked

query_by_tags_and_owner-has_each_example :
    query_by_tags_and_owner ("work" ∷ "old" ∷ []) "u1" table
    ≡ select
        (λ f. str_eq f.owner_id "u1" && has_each ("work" ∷ "old" ∷ []) table.tags f)
        table.files
unfolding mem
query_by_tags_and_owner-has_each_example =
    query_by_tags_and_owner-has_each "work" ("old" ∷ []) "u1" table (refl, (refl, tt))

query_by_tags_and_owner_repeated_example :
    query_by_tags_and_owner ("work" ∷ "work" ∷ []) "u1" table ≡ []
unfolding mem
query_by_tags_and_owner_repeated_example =
    query_by_tags_and_owner_repeated "work" ("work" ∷ []) "u1" table refl

pushed : (handle_push_operations env (creation ∷ []) node).0 ≡ true
unfolding handle_push_operations push_each push_next sort_operations_by_causality sort_by
    insert_sorted apply_operation apply_operation_within get_operation_by_id store_operation
    insert_operation attempt dispatch conclude apply_file_created insert_file finish
    check_and_apply_deferred_operations Dict.lookup find exists
pushed = refl

remove_tags_from_files_keeps_example :
    has_tag "f1"
      (remove_tags_from_files (λ id. emission) ("work" ∷ []) ("work" ∷ []) "u1" table).1.tags
    ≡ true
unfolding exists
remove_tags_from_files_keeps_example =
    remove_tags_from_files_keeps (λ id. emission) ("work" ∷ []) ("work" ∷ []) "u1" table "f1" refl

add_tags_to_files_adds_example :
    exists
      (is_tag "f1" "new")
      (add_tags_to_files (λ id. emission) ("work" ∷ []) ("new" ∷ []) "u1" table).1.tags
    ≡ (exists (is_tag "f1" "new") table.tags
        || (mem "f1" (
              answered (add_tags_to_files (λ id. emission) ("work" ∷ []) ("new" ∷ []) "u1" table).0)
            && mem "new" ("new" ∷ [])))
add_tags_to_files_adds_example =
    add_tags_to_files_adds (λ id. emission) ("work" ∷ []) ("new" ∷ []) "u1" table "f1" "new"
