-- ===== src/Replication/Applier/Progress.antt =====
-- Applied operations stay applied, applying one twice changes nothing, and the vector clock table
-- never goes back.
use redcloud_files.Base.{
  ℕ, suc, ◌≤◌, String, Bool, true, false, Option, some, none, [], ◌∷◌, ◌≡◌, refl, arith, eq_iff,
  Bool-cases, Option-cases, inl, inr, find,
}
use redcloud_files.VectorClock.{at}
use redcloud_files.Replication.Operation.{Operation}
use redcloud_files.Replication.Database.{
  Db, Result, ok, err, dependency_not_met, integrity_error, index_error,
}
use redcloud_files.Replication.Log.{
  get_operation_by_id, insert_operation, has_id, set_applied, sequence_of,
}
use redcloud_files.Replication.Log.Marks.{find-update, find-snoc, find-append}
use redcloud_files.Replication.Log.Clock.{merge_clock_rows_grows}
use redcloud_files.Replication.Applier.{
  Node, Env, Outcome, dispatch, conclude, attempt, apply_operation_within, apply_operation,
  store_operation, is_applied,
}
use redcloud_files.Replication.Applier.Effects.{Effect, dispatch-Effect}
use redcloud_files.Replication.Applier.Keeps.{Rule, Holds, check-Holds, within-Holds}

-- the log has the operation, marked as applied
abbrev pub IsApplied : String → Db → Type 0
IsApplied id db = is_applied (get_operation_by_id id db) ≡ true

-- no entry of the clock table is below `base`
abbrev pub Above : (String → ℕ) → Db → Type 0
Above base db = (k : String) → base k ≤ sequence_of db.vector_clock_state k

abbrev Any : Operation → Type 0
Any op = Unit {0}

stored-IsApplied :
    (now id : String) (op : Operation) (db : Db) (o : Option Operation) {db' : Db}
    → store_operation now op db o ≡ ok db'
    → IsApplied id db
    → IsApplied id db'
unfolding store_operation insert_operation get_operation_by_id
stored-IsApplied now id op db (some old) e h = ground arith
stored-IsApplied now id op db none {db'} e h =
    elim (Option-cases (find (has_id id) db.operations)) [
      | inl absent ↦ ground arith
      | inr (x, found) ↦ ground (
        arith,
        find-append (has_id id) db.operations (record op { applied = 0; created_at = now } ∷ [])
            found,
      )
    ]

Effect-IsApplied :
    (now id : String) (op : Operation) (db db' : Db) (b : Bool)
    → Effect now op db b db'
    → IsApplied id db
    → IsApplied id db'
unfolding get_operation_by_id set_applied
Effect-IsApplied now id op db db' b e h =
    ground (arith, find-update op.operation_id id db.operations)

IsApplied-rule : (env : Env) (id : String) → Rule env (IsApplied id) Any
IsApplied-rule env id = record {
  stored = λ op db o e. stored-IsApplied env.now id op db o e;
  handled = λ op n {b} {n'} e _.
      Effect-IsApplied env.now id op n.db n'.db b (dispatch-Effect env op n op.payload e);
}

Effect-Above :
    (now : String) (base : String → ℕ) (op : Operation) (db db' : Db) (b : Bool)
    → Effect now op db b db'
    → Above base db
    → Above base db'
Effect-Above now base op db db' b e h k =
    ground (arith, h k, merge_clock_rows_grows now op.vector_clock db.vector_clock_state k)

stored-Above :
    (now : String) (base : String → ℕ) (op : Operation) (db : Db) (o : Option Operation) {db' : Db}
    → store_operation now op db o ≡ ok db'
    → Above base db
    → Above base db'
unfolding store_operation insert_operation
stored-Above now base op db o e h k = ground (arith, h k)

Above-rule : (env : Env) (base : String → ℕ) → Rule env (Above base) Any
Above-rule env base = record {
  stored = λ op db o e. stored-Above env.now base op db o e;
  handled = λ op n {b} {n'} e _.
      Effect-Above env.now base op n.db n'.db b (dispatch-Effect env op n op.payload e);
}

-- Whatever `apply_operation` returns or raises, an operation that was applied before stays marked in
-- the log, and no entry of the vector clock table gets smaller.
pub apply_operation_monotone :
    (env : Env) (op : Operation) (n : Node)
    → ((id : String) → IsApplied id n.db → IsApplied id (apply_operation env op n).1.db)
      × Above (sequence_of n.db.vector_clock_state) (apply_operation env op n).1.db
unfolding apply_operation
apply_operation_monotone env op n = (
  λ id h.
      (within-Holds env (IsApplied-rule env id) 2 op n tt
        (record { tables = h; deferred = λ _ _ _. tt })).tables,
  (within-Holds env (Above-rule env (sequence_of n.db.vector_clock_state)) 2 op n tt
      (record { tables = λ k. omega arith; deferred = λ _ _ _. tt })).tables,
)

-- after the storing step the log has the operation
stored_found :
    (now : String) (op : Operation) (db : Db) {db' : Db}
    → store_operation now op db (get_operation_by_id op.operation_id db) ≡ ok db'
    → (x : Operation) × (get_operation_by_id op.operation_id db' ≡ some x)
unfolding store_operation insert_operation get_operation_by_id
stored_found now op db {db'} e = elim (Option-cases (find (has_id op.operation_id) db.operations)) [
  | inl absent ↦
      let row : Operation = record op { applied = 0; created_at = now } in
      (
        row,
        ground (
          arith,
          absent,
          eq_iff op.operation_id op.operation_id,
          find-snoc (has_id op.operation_id) db.operations row,
        ),
      )
  | inr (x, found) ↦ (x, ground (arith, found))
]

abbrev Done : Operation → Db → Type 0
Done op db = IsApplied op.operation_id db × Above (at op.vector_clock) db

Effect-Done :
    (now : String) (op : Operation) (db db' : Db) (x : Operation)
    → get_operation_by_id op.operation_id db ≡ some x
    → Effect now op db true db'
    → Done op db'
unfolding get_operation_by_id set_applied
Effect-Done now op db db' x f e = (
  ground (
    arith,
    find-update op.operation_id op.operation_id db.operations,
    eq_iff op.operation_id op.operation_id,
  ),
  λ k. ground (arith, merge_clock_rows_grows now op.vector_clock db.vector_clock_state k),
)

module _ (env : Env) (f : Operation → Node → Outcome)
    (ka : (id : String) (op : Operation) (n : Node)
      → Unit {0}
      → Holds (IsApplied id) Any n
      → Holds (IsApplied id) Any (f op n).1)
    (kb : (base : String → ℕ) (op : Operation) (n : Node)
      → Unit {0}
      → Holds (Above base) Any n
      → Holds (Above base) Any (f op n).1) where
  conclude-Done :
      (op : Operation) (n : Node) (r : Result (Bool × Node)) (x : Operation)
      → dispatch env op n op.payload ≡ r
      → get_operation_by_id op.operation_id n.db ≡ some x
      → (conclude f op n r).0 ≡ ok true
      → Done op (conclude f op n r).1.db
  unfolding conclude
  conclude-Done op n (ok (true, n')) x e found h =
      let done =
        Effect-Done env.now op n.db n'.db x found (dispatch-Effect env op n op.payload e) in
      (
        (check-Holds f (ka op.operation_id) op n'
            (record { tables = done.0; deferred = λ _ _ _. tt })).tables,
        (check-Holds f (kb (at op.vector_clock)) op n'
            (record { tables = done.1; deferred = λ _ _ _. tt })).tables,
      )
  conclude-Done op n (ok (false, n')) x e found h = cc
  conclude-Done op n (err (dependency_not_met k)) x e found h = cc
  conclude-Done op n (err integrity_error) x e found h = cc
  conclude-Done op n (err index_error) x e found h = cc

  attempt-Done :
      (op : Operation) (n : Node) (r : Result Db)
      → store_operation env.now op n.db (get_operation_by_id op.operation_id n.db) ≡ r
      → (attempt f env op n r).0 ≡ ok true
      → Done op (attempt f env op n r).1.db
  unfolding attempt
  attempt-Done op n (err e) s h = cc
  attempt-Done op n (ok db) s h =
      let (x, found) = stored_found env.now op n.db s in
      conclude-Done op (record n { db = db }) _ x refl found h

skip_applied :
    (env : Env) (d : ℕ) (op : Operation) (n : Node)
    → IsApplied op.operation_id n.db
    → apply_operation_within env (suc d) op n ≡ (ok false, n)
unfolding apply_operation_within
skip_applied env d op n h = rw h

within-Done :
    (env : Env) (d : ℕ) (op : Operation) (n : Node)
    → (apply_operation_within env (suc d) op n).0 ≡ ok true
    → Done op (apply_operation_within env (suc d) op n).1.db
unfolding apply_operation_within
within-Done env d op n = elim (Bool-cases (is_applied (get_operation_by_id op.operation_id n.db))) [
  | inl e ↦ rw e (λ h. cc)
  | inr e ↦ rw e (
      attempt-Done env (apply_operation_within env d)
        (λ id. within-Holds env (IsApplied-rule env id) d)
        (λ base. within-Holds env (Above-rule env base) d) op n _ refl)
]

-- Where `apply_operation` returns True the operation is marked in the log and its clock is covered by
-- the clock table; a second call then returns False and leaves the node as it is.
pub apply_operation_twice :
    (env : Env) (op : Operation) (n : Node)
    → (apply_operation env op n).0 ≡ ok true
    → IsApplied op.operation_id (apply_operation env op n).1.db
      × Above (at op.vector_clock) (apply_operation env op n).1.db
      × (apply_operation env op (apply_operation env op n).1
          ≡ (ok false, (apply_operation env op n).1))
apply_operation_twice env op n h =
    let done : Done op (apply_operation env op n).1.db =
      unfold apply_operation in within-Done env 1 op n h in
    (done.0, done.1, unfold apply_operation in skip_applied env 1 op _ done.0)
