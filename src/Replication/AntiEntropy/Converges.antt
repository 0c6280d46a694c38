-- ===== src/Replication/AntiEntropy/Converges.antt =====
-- After a round with a peer the log has every operation of the peer's log.
use redcloud_files.Base.{
  ℕ, suc, String, Bool, true, false, Option, List, [], ◌∷◌, ◌++◌, map, ◌≡◌, refl, arith, eq_iff,
  eq_refl, eq_comm, str_eq, Bool-cases, Option-cases, inl, inr, find, exists, select, update,
  sort_by, insert_sorted, mem, ◌||◌, ◌&&◌, exists-append, find-exists, set_of, difference,
  mem-difference, mem-set_of,
}
use redcloud_files.Replication.Operation.{Operation}
use redcloud_files.Replication.Database.{
  Db, Result, ok, err, dependency_not_met, integrity_error, index_error,
}
use redcloud_files.Replication.Log.{
  get_operation_by_id, insert_operation, has_id, set_applied, get_all_operation_ids,
  get_operations_by_ids,
}
use redcloud_files.Replication.Applier.{
  Node, Env, dispatch, conclude, attempt, apply_operation_within, apply_operation, store_operation,
  is_applied, defer_operation,
}
use redcloud_files.Replication.Applier.Effects.{Effect, dispatch-Effect}
use redcloud_files.Replication.Applier.Keeps.{Rule, Holds, check-Holds, within-Holds}
use redcloud_files.Replication.AntiEntropy.{
  apply_each, sort_operations_by_causality, missing_operation_ids, anti_entropy_round,
  causal_key_lt,
}

-- the log has the operation, applied or not
abbrev pub IsLogged : String → Db → Type 0
IsLogged id db = exists (has_id id) db.operations ≡ true

abbrev Any : Operation → Type 0
Any op = Unit {0}

exists-set_applied :
    (other id : String) (ops : List Operation)
    → exists (has_id id) (update (has_id other) set_applied ops) ≡ exists (has_id id) ops
unfolding exists update set_applied
exists-set_applied other id [] = refl
exists-set_applied other id (op ∷ ops) = ground (arith, exists-set_applied other id ops)

stored-IsLogged :
    (now id : String) (op : Operation) (db : Db) (o : Option Operation) {db' : Db}
    → store_operation now op db o ≡ ok db'
    → IsLogged id db
    → IsLogged id db'
unfolding store_operation insert_operation
stored-IsLogged now id op db o {db'} e h = ground (
  arith,
  exists-append (has_id id) db.operations (record op { applied = 0; created_at = now } ∷ []),
)

Effect-IsLogged :
    (now id : String) (op : Operation) (db db' : Db) (b : Bool)
    → Effect now op db b db'
    → IsLogged id db
    → IsLogged id db'
Effect-IsLogged now id op db db' b e h =
    ground (arith, exists-set_applied op.operation_id id db.operations)

IsLogged-rule : (env : Env) (id : String) → Rule env (IsLogged id) Any
IsLogged-rule env id = record {
  stored = λ op db o e. stored-IsLogged env.now id op db o e;
  handled = λ op n {b} {n'} e _.
      Effect-IsLogged env.now id op n.db n'.db b (dispatch-Effect env op n op.payload e);
}

holds : (id : String) (n : Node) → IsLogged id n.db → Holds (IsLogged id) Any n
holds id n h = record { tables = h; deferred = λ _ _ _. tt }

pub apply_operation-IsLogged :
    (env : Env) (id : String) (op : Operation) (n : Node)
    → IsLogged id n.db
    → IsLogged id (apply_operation env op n).1.db
unfolding apply_operation
apply_operation-IsLogged env id op n h =
    (within-Holds env (IsLogged-rule env id) 2 op n tt (holds id n h)).tables

pub apply_each-IsLogged :
    (env : Env) (id : String) (ops : List Operation) (n : Node)
    → IsLogged id n.db
    → IsLogged id (apply_each env ops n).db
unfolding apply_each
apply_each-IsLogged env id [] n h = h
apply_each-IsLogged env id (op ∷ ops) n h =
    apply_each-IsLogged env id ops (apply_operation env op n).1
      (apply_operation-IsLogged env id op n h)

-- the storing step puts the operation in the log, and never raises
stored_logged :
    (now : String) (op : Operation) (db : Db)
    → (db' : Db) × (store_operation now op db (get_operation_by_id op.operation_id db) ≡ ok db')
      × IsLogged op.operation_id db'
unfolding store_operation insert_operation get_operation_by_id exists
stored_logged now op db = elim (Option-cases (find (has_id op.operation_id) db.operations)) [
  | inl absent ↦
      let row : Operation = record op { applied = 0; created_at = now } in
      (
        record db { operations = db.operations ++ row ∷ [] },
        ground (arith, absent),
        ground (
          arith,
          eq_refl op.operation_id,
          exists-append (has_id op.operation_id) db.operations (row ∷ []),
        ),
      )
  | inr (x, found) ↦ (
    db,
    ground (arith, found),
    ground (arith, find-exists (has_id op.operation_id) db.operations found),
  )
]

conclude-IsLogged :
    (env : Env) (id : String) (d : ℕ) (op : Operation) (n : Node) (r : Result (Bool × Node))
    → dispatch env op n op.payload ≡ r
    → IsLogged id n.db
    → IsLogged id (conclude (apply_operation_within env d) op n r).1.db
unfolding conclude defer_operation
conclude-IsLogged env id d op n (ok (true, n')) e h =
    (check-Holds (apply_operation_within env d) (within-Holds env (IsLogged-rule env id) d) op n' (
      holds id n' (
        Effect-IsLogged env.now id op n.db n'.db true (dispatch-Effect env op n op.payload e)
          h))).tables
conclude-IsLogged env id d op n (ok (false, n')) e h =
    Effect-IsLogged env.now id op n.db n'.db false (dispatch-Effect env op n op.payload e) h
conclude-IsLogged env id d op n (err (dependency_not_met k)) e h = h
conclude-IsLogged env id d op n (err integrity_error) e h = h
conclude-IsLogged env id d op n (err index_error) e h = h

attempt-IsLogged :
    (env : Env) (d : ℕ) (op : Operation) (n : Node) (r : Result Db)
    → store_operation env.now op n.db (get_operation_by_id op.operation_id n.db) ≡ r
    → IsLogged op.operation_id (attempt (apply_operation_within env d) env op n r).1.db
unfolding attempt
attempt-IsLogged env d op n (err e) h = absurd (ground (arith, (stored_logged env.now op n.db).1))
attempt-IsLogged env d op n (ok db) h =
    let stored = stored_logged env.now op n.db in
    conclude-IsLogged env op.operation_id d op (record n { db = db }) _ refl
      (ground (arith, stored.1, stored.2))

-- an applied operation is in the log
applied_logged :
    (op : Operation) (db : Db)
    → is_applied (get_operation_by_id op.operation_id db) ≡ true
    → IsLogged op.operation_id db
unfolding get_operation_by_id
applied_logged op db h = elim (Option-cases (find (has_id op.operation_id) db.operations)) [
  | inl absent ↦ absurd (ground arith)
  | inr (x, found) ↦ (find-exists (has_id op.operation_id) db.operations found).1
]

within-IsLogged :
    (env : Env) (d : ℕ) (op : Operation) (n : Node)
    → IsLogged op.operation_id (apply_operation_within env (suc d) op n).1.db
unfolding apply_operation_within
within-IsLogged env d op n =
    elim (Bool-cases (is_applied (get_operation_by_id op.operation_id n.db))) [
      | inl e ↦ rw e (applied_logged op n.db e)
      | inr e ↦ rw e (attempt-IsLogged env d op n _ refl)
    ]

-- After `apply_operation` the operation is in the log, whatever the call returned or raised.
pub apply_operation_logs :
    (env : Env) (op : Operation) (n : Node)
    → IsLogged op.operation_id (apply_operation env op n).1.db
unfolding apply_operation
apply_operation_logs env op n = within-IsLogged env 1 op n

exists-insert_sorted :
    (p : Operation → Bool) (lt : Operation → Operation → Bool) (x : Operation) (ys : List Operation)
    → exists p (insert_sorted lt x ys) ≡ (p x || exists p ys)
unfolding exists insert_sorted
exists-insert_sorted p lt x [] = refl
exists-insert_sorted p lt x (y ∷ ys) = ground (arith, exists-insert_sorted p lt x ys)

pub exists-sort_by :
    (p : Operation → Bool) (lt : Operation → Operation → Bool) (xs : List Operation)
    → exists p (sort_by lt xs) ≡ exists p xs
unfolding exists sort_by
exists-sort_by p lt [] = refl
exists-sort_by p lt (x ∷ xs) =
    ground (arith, exists-insert_sorted p lt x (sort_by lt xs), exists-sort_by p lt xs)

exists-by_ids :
    (id : String) (ids : List String) (ops : List Operation)
    → exists (has_id id) (select (λ op. mem op.operation_id ids) ops)
      ≡ (exists (has_id id) ops && mem id ids)
unfolding exists select
exists-by_ids id ids [] = refl
exists-by_ids id ids (op ∷ ops) =
    ground (arith, exists-by_ids id ids ops, eq_iff op.operation_id id)

pub mem-ids :
    (id : String) (ops : List Operation)
    → mem id (map (λ op. op.operation_id) ops) ≡ exists (has_id id) ops
unfolding mem exists
mem-ids id [] = refl
mem-ids id (op ∷ ops) = ground (arith, mem-ids id ops, eq_comm id op.operation_id)

-- every operation of the list is in the log after the loop
apply_each_logs :
    (env : Env) (id : String) (ops : List Operation) (n : Node)
    → exists (has_id id) ops ≡ true
    → IsLogged id (apply_each env ops n).db
unfolding apply_each exists
apply_each_logs env id [] n h = absurd (ground arith)
apply_each_logs env id (op ∷ ops) n h = elim (Bool-cases (str_eq op.operation_id id)) [
  | inl e ↦
      apply_each-IsLogged env id ops (apply_operation env op n).1
        (ground (arith, eq_iff op.operation_id id, apply_operation_logs env op n))
  | inr e ↦ apply_each_logs env id ops (apply_operation env op n).1 (ground arith)
]

-- After a round in which every call answers, the log has each operation that was in it or in the log of
-- the peer, whatever applying them returned or raised.
pub anti_entropy_round-IsLogged :
    (env : Env) (peer : Db) (n : Node) (id : String)
    → (exists (has_id id) n.db.operations || exists (has_id id) peer.operations) ≡ true
    → IsLogged id (anti_entropy_round env peer n).1.db
unfolding anti_entropy_round sort_operations_by_causality missing_operation_ids
    get_operations_by_ids get_all_operation_ids
anti_entropy_round-IsLogged env peer n id h =
    let theirs = map (λ (op : Operation). op.operation_id) peer.operations in
    let mine = map (λ (op : Operation). op.operation_id) n.db.operations in
    let missing = difference (set_of theirs) mine in
    let ops = select (λ op. mem op.operation_id missing) peer.operations in
    elim (Bool-cases (exists (has_id id) n.db.operations)) [
      | inl e ↦ apply_each-IsLogged env id (sort_by causal_key_lt ops) n e
      | inr e ↦ apply_each_logs env id (sort_by causal_key_lt ops) n (
          ground (
            arith,
            exists-sort_by (has_id id) causal_key_lt ops,
            exists-by_ids id missing peer.operations,
            mem-difference id (set_of theirs) mine,
            mem-set_of id theirs,
            mem-ids id peer.operations,
            mem-ids id n.db.operations,
          ))
    ]
