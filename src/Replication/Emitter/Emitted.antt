-- ===== src/Replication/Emitter/Emitted.antt =====
-- The clock of an emitted operation.
use redcloud_files.Base.{
  ◌+◌, ◌≤◌, String, true, none, some, [], ◌∷◌, ◌++◌, ◌≡◌, arith, eq_iff, eq_refl,
}
use redcloud_files.VectorClock.{VectorClock, at, happens_before, increment}
use redcloud_files.VectorClock.Order.{IsClock, happens_before_iff}
use redcloud_files.VectorClock.Merge.{at-insert, operations-IsClock}
use redcloud_files.Replication.Operation.{Operation, Payload}
use redcloud_files.Replication.Database.{Db, ok}
use redcloud_files.Replication.Log.{get_operation_by_id, insert_operation, has_id, sequence_of}
use redcloud_files.Replication.Log.Marks.{find-snoc}
use redcloud_files.Replication.Log.Clock.{sequence_of-insert}
use redcloud_files.Replication.Users.{clock}
use redcloud_files.Replication.Service.{get_current_vector_clock}
use redcloud_files.Replication.Service.Gossip.{at-clock_of_rows}
use redcloud_files.Replication.Emitter.{Emission, get_and_increment_vector_clock, with_id, emit}

abbrev pub current : Db → VectorClock
current db = record { clocks = get_current_vector_clock db }

incremented-after :
    (c a : VectorClock) (controller_id : String)
    → IsClock c
    → IsClock a
    → ((k : String) → at c.clocks k ≤ at a.clocks k)
    → happens_before c (increment a controller_id) ≡ true
unfolding increment
incremented-after c a i cc' ca below =
    (happens_before_iff c (increment a i) cc' (operations-IsClock a a i ca ca).0).1 (
      λ k. ground (arith, below k, at-insert i k (at a.clocks i + 1) a.clocks, eq_iff i k),
      λ s. ground (arith, s i, below i, at-insert i i (at a.clocks i + 1) a.clocks, eq_refl i),
    )

-- the operation that `emit` stores
abbrev pub emitted : Emission → Payload → String → Db → Operation
emitted e payload user_id db = record {
  operation_id = e.operation_id;
  payload = payload;
  user_id = user_id;
  timestamp_ms = e.timestamp_ms;
  vector_clock = (get_and_increment_vector_clock e.now e.controller_id db).0;
  applied = 1;
  created_at = e.now;
}

-- An operation emitted under a new id, from a clock table with no controller twice and no zero
-- entry, is in the log afterwards, marked as applied; its clock comes strictly after every clock
-- with no controller twice and no zero entry that the table covered, and is what the table then
-- holds.
pub emit-happens_before :
    (e : Emission) (payload : Payload) (user_id : String) (db : Db) (c : VectorClock)
    → get_operation_by_id e.operation_id db ≡ none
    → IsClock c
    → IsClock (current db)
    → ((k : String) → at c.clocks k ≤ sequence_of db.vector_clock_state k)
    → (db' : Db) × (emit e payload user_id db ≡ ok (e.operation_id, db'))
      × (get_operation_by_id e.operation_id db' ≡ some (emitted e payload user_id db))
      × (happens_before c (clock (emitted e payload user_id db)) ≡ true)
      × ((k : String)
          → sequence_of db'.vector_clock_state k ≡ at (emitted e payload user_id db).vector_clock k)
unfolding emit with_id insert_operation get_operation_by_id get_and_increment_vector_clock
    get_current_vector_clock increment
emit-happens_before e payload user_id db c fresh cc' ca below =
    let next = (get_and_increment_vector_clock e.now e.controller_id db).1 in
    let op = emitted e payload user_id db in
    let seq = at (current db).clocks e.controller_id + 1 in
    (
      record next { operations = next.operations ++ op ∷ [] },
      ground (arith, fresh),
      find-snoc (has_id e.operation_id) db.operations op (eq_refl e.operation_id) fresh,
      incremented-after c (current db) e.controller_id cc' ca
          (λ k. ground (arith, below k, at-clock_of_rows db.vector_clock_state k)),
      λ k. ground (
        arith,
        at-insert e.controller_id k seq (current db).clocks,
        at-clock_of_rows db.vector_clock_state k,
        eq_iff e.controller_id k,
        sequence_of-insert e.controller_id k (record { sequence = seq; last_seen_at = e.now })
            db.vector_clock_state,
      ),
    )
