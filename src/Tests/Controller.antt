-- ===== src/Tests/Controller.antt =====
-- A controller that gets the creation of a file, labels for it and its deletion.
use mathlib.Core.List.{Mem}
use mathlib.Core.List.Perm
use redcloud_files.Base.{
  none, String, Bool, true, false, some, [], ◌∷◌, ◌≡◌, refl, arith, str_lt, find, exists,
}
use redcloud_files.Base.Dict
use redcloud_files.VectorClock.{at}
use redcloud_files.VectorClock.Order.{IsClock}
use redcloud_files.Replication.Operation.{Operation, FileCreated, file_created, tags_added, unknown}
use redcloud_files.Replication.Database.{Db, empty, ok}
use redcloud_files.Replication.Log.{sequence_of, get_operation_by_id, insert_operation}
use redcloud_files.Replication.Users.{clock, finish}
use redcloud_files.Replication.Files.{
  Created, resolve_concurrent_file_creation, file_key_lt, payload_file_id, apply_file_created,
  apply_file_deleted, insert_file,
}
use redcloud_files.Replication.Files.Winner.{resolve_concurrent_file_creation_agrees}
use redcloud_files.Replication.Files.Ordering.{deletion, is_present, created_then_deleted}
use redcloud_files.Replication.Applier.{
  Node, Env, apply_operation, apply_operation_within, store_operation, attempt, dispatch, conclude,
  defer_operation, check_and_apply_deferred_operations,
}
use redcloud_files.Replication.Tags.{apply_tags_added}
use redcloud_files.Replication.Applier.Depth.{IsWaiting, apply_operation-depth}
use redcloud_files.Replication.Applier.Keeps.{Holds}
use redcloud_files.Replication.Applier.Progress.{
  IsApplied, Above, apply_operation_monotone, apply_operation_twice,
}
use redcloud_files.Replication.Applier.Tagged.{Carries, apply_operation-IsTagged}
use redcloud_files.Replication.Files.Tagged.{IsTagged}

abbrev pub env : Env
env = record { now = "t9"; likes = λ name payload. false }

abbrev report : FileCreated
report = record {
  file_id = "f1";
  name = "report.txt";
  size = 3;
  owner_id = "u1";
  created_at = "t1";
  tags = "work" ∷ [];
  replaced_file_id = none;
}

abbrev pub creation : Operation
creation = record {
  operation_id = "o1";
  payload = file_created report;
  user_id = "u1";
  timestamp_ms = 10;
  vector_clock = ("c1", 1) ∷ [];
  applied = 0;
  created_at = "t1";
}

abbrev removal : Operation
removal = record creation {
  operation_id = "o2";
  payload = unknown "FILE_DELETED";
  timestamp_ms = 11;
}

abbrev pub labelling : Operation
labelling = record creation {
  operation_id = "o3";
  payload = tags_added (record { file_id = "f1"; tags = "old" ∷ []; owner_id = "u1" });
  vector_clock = ("c1", 2) ∷ [];
}

abbrev pub node : Node
node = record { db = empty; deferred = []; dependencies = []; skipped_file_ids = [] }

applies : (apply_operation env creation node).0 ≡ ok true
unfolding apply_operation apply_operation_within get_operation_by_id store_operation
    insert_operation attempt dispatch conclude apply_file_created insert_file finish
    check_and_apply_deferred_operations Dict.lookup find exists
applies = refl

apply_operation_twice_example :
    IsApplied "o1" (apply_operation env creation node).1.db
    × Above (at creation.vector_clock) (apply_operation env creation node).1.db
    × (apply_operation env creation (apply_operation env creation node).1
        ≡ (ok false, (apply_operation env creation node).1))
apply_operation_twice_example = apply_operation_twice env creation node applies

abbrev after : Node
after = (apply_operation env creation node).1

apply_operation_monotone_example :
    ((id : String)
      → IsApplied id after.db
      → IsApplied id (apply_operation env labelling after).1.db)
    × Above (sequence_of after.db.vector_clock_state) (apply_operation env labelling after).1.db
apply_operation_monotone_example = apply_operation_monotone env labelling after

node-IsWaiting : IsWaiting node
unfolding Dict.lookup
node-IsWaiting = record { dependent = λ id op e. ground arith; keyed = refl }

apply_operation-depth_example :
    (apply_operation_within env 5 labelling node ≡ apply_operation env labelling node)
    × IsWaiting (apply_operation env labelling node).1
apply_operation-depth_example = apply_operation-depth env 3 labelling node node-IsWaiting

node-Holds : Holds IsTagged Carries node
unfolding Dict.lookup
node-Holds = record { tables = (tt, tt); deferred = λ id op e. absurd (ground arith) }

apply_operation-IsTagged_example : Holds IsTagged Carries (apply_operation env creation node).1
apply_operation-IsTagged_example =
    apply_operation-IsTagged env creation node (λ e. ground arith) node-Holds

-- the labels wait for the file, and are there once it is created
waits : (apply_operation env labelling node).0 ≡ ok false
unfolding apply_operation apply_operation_within get_operation_by_id store_operation
    insert_operation attempt dispatch conclude apply_tags_added defer_operation Dict.lookup
    Dict.insert find exists
waits = refl

abbrev pub later : Operation
later = record creation { operation_id = "o4"; timestamp_ms = 20; vector_clock = ("c2", 1) ∷ [] }

resolve_concurrent_file_creation_agrees_example :
    (v w : Operation) × (resolve_concurrent_file_creation (later ∷ creation ∷ []) ≡ some v)
    × (resolve_concurrent_file_creation (creation ∷ later ∷ []) ≡ some w)
    × Mem v (later ∷ creation ∷ [])
    × ((o : Operation) → Mem o (later ∷ creation ∷ []) → file_key_lt o v ≡ false)
    × (v.timestamp_ms ≡ w.timestamp_ms)
    × (payload_file_id v.payload ≡ payload_file_id w.payload)
resolve_concurrent_file_creation_agrees_example =
    resolve_concurrent_file_creation_agrees (later ∷ creation ∷ []) (creation ∷ later ∷ [])
      (λ e. ground arith) (Perm.swap creation later [])

pub creation-IsClock : IsClock (clock creation)
unfolding Dict.has_key
creation-IsClock = record { distinct = (refl, tt); positive = (omega arith, tt) }

pub later-IsClock : IsClock (clock later)
unfolding Dict.has_key
later-IsClock = record { distinct = (refl, tt); positive = (omega arith, tt) }

created_then_deleted_example :
    (c : Created) × (b : Bool) × (db' : Db) × (apply_file_created "t9" env.likes creation report
        empty
      ≡ ok c)
    × (apply_file_deleted "t9" removal (deletion report "t1" "c1") c.db ≡ ok (b, db'))
    × (is_present report db' ≡ str_lt "t1" "t1")
unfolding exists find
created_then_deleted_example =
    created_then_deleted "t9" env.likes creation removal report "t1" "c1" empty refl refl
