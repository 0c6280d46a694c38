-- ===== src/Replication/Applier/Keeps.antt =====
-- A rule for what every call of `apply_operation` keeps true of the database, retries included.
use redcloud_files.Base.{
  ℕ, zero, suc, String, Bool, true, false, Option, some, none, List, [], ◌∷◌, ◌≡◌, refl, subst,
  arith, str_eq, All, Bool-cases, inl, inr,
}
use redcloud_files.Base.Dict
use redcloud_files.Base.Dict.{Dict}
use redcloud_files.Replication.Operation.{Operation}
use redcloud_files.Replication.Database.{
  Db, Result, ok, err, dependency_not_met, integrity_error, index_error,
}
use redcloud_files.Replication.Log.{get_operation_by_id}
use redcloud_files.Replication.Applier.{
  Node, Env, Outcome, dispatch, defer_operation, retry_all, retry_waiting,
  check_and_apply_deferred_operations, conclude, attempt, apply_operation_within, store_operation,
  is_applied,
}
use redcloud_files.Replication.Applier.Pending.{AllWaiting, pop_waiting-All}
use redcloud_files.Replication.Applier.Raises.{dispatch-deferred}

-- `P` is kept when an operation is stored, and by the handler of an operation in `Q`.
pub record Rule (env : Env) (P : Db → Type 0) (Q : Operation → Type 0) : Type 0 where
  pub stored :
      (op : Operation) (db : Db) (o : Option Operation) {db' : Db}
      → store_operation env.now op db o ≡ ok db'
      → P db
      → P db'
  pub handled :
      (op : Operation) (n : Node) {b : Bool} {n' : Node}
      → dispatch env op n op.payload ≡ ok (b, n')
      → Q op
      → P n.db
      → P n'.db

pub record Holds (P : Db → Type 0) (Q : Operation → Type 0) (n : Node) : Type 0 where
  pub tables : P n.db
  pub deferred : AllWaiting Q n.deferred

abbrev Keeps : (Db → Type 0) → (Operation → Type 0) → (Operation → Node → Outcome) → Type 0
Keeps P Q f = (op : Operation) (n : Node) → Q op → Holds P Q n → Holds P Q (f op n).1

module _ {P : Db → Type 0} {Q : Operation → Type 0} where
  defer-Holds :
      (op : Operation) (key : String) (n : Node)
      → Q op
      → Holds P Q n
      → Holds P Q (defer_operation op key n)
  unfolding defer_operation
  defer-Holds op key n q h = record {
    tables = h.tables;
    deferred = λ id op' e. elim (Bool-cases (str_eq op.operation_id id)) [
      | inl t ↦ subst Q (ground (arith, Dict.lookup-insert op.operation_id id op n.deferred)) q
      | inr f ↦
          h.deferred id op' (ground (arith, Dict.lookup-insert op.operation_id id op n.deferred))
    ];
  }

  retry_all-Holds :
      (f : Operation → Node → Outcome)
      → Keeps P Q f
      → (ops : List Operation) (n : Node) → All Q ops
      → Holds P Q n
      → Holds P Q (retry_all f ops n)
  unfolding retry_all
  retry_all-Holds f k [] n qs h = h
  retry_all-Holds f k (op ∷ ops) n qs h = retry_all-Holds f k ops (f op n).1 qs.1 (k op n qs.0 h)

  retry_waiting-Holds :
      (f : Operation → Node → Outcome)
      → Keeps P Q f
      → (key : String) (o : Option (List String)) (n : Node) → Holds P Q n
      → Holds P Q (retry_waiting f key o n)
  unfolding retry_waiting
  retry_waiting-Holds f k key none n h = h
  retry_waiting-Holds f k key (some ids) n h =
      let taken = pop_waiting-All ids n.deferred h.deferred in
      retry_all-Holds f k _ _ taken.0 (record { tables = h.tables; deferred = taken.1 })

  pub check-Holds :
      (f : Operation → Node → Outcome)
      → Keeps P Q f
      → (op : Operation) (n : Node) → Holds P Q n
      → Holds P Q (check_and_apply_deferred_operations f op n)
  unfolding check_and_apply_deferred_operations
  check-Holds f k op n h = retry_waiting-Holds f k _ _ n h

module _ {P : Db → Type 0} {Q : Operation → Type 0} (env : Env) (rule : Rule env P Q) where
  after_handler :
      (op : Operation) (n : Node) {b : Bool} {n' : Node}
      → dispatch env op n op.payload ≡ ok (b, n')
      → Q op
      → Holds P Q n
      → Holds P Q n'
  after_handler op n e q h = record {
    tables = rule.handled op n e q h.tables;
    deferred = rw (dispatch-deferred env op n op.payload e).0 h.deferred;
  }

  conclude-Holds :
      (f : Operation → Node → Outcome)
      → Keeps P Q f
      → (op : Operation) (n : Node) (r : Result (Bool × Node)) → dispatch env op n op.payload ≡ r
      → Q op
      → Holds P Q n
      → Holds P Q (conclude f op n r).1
  unfolding conclude
  conclude-Holds f k op n (ok (true, n')) e q h = check-Holds f k op n' (after_handler op n e q h)
  conclude-Holds f k op n (ok (false, n')) e q h = after_handler op n e q h
  conclude-Holds f k op n (err (dependency_not_met key)) e q h = defer-Holds op key n q h
  conclude-Holds f k op n (err integrity_error) e q h = h
  conclude-Holds f k op n (err index_error) e q h = h

  attempt-Holds :
      (f : Operation → Node → Outcome)
      → Keeps P Q f
      → (op : Operation) (n : Node) (o : Option Operation) (r : Result Db)
      → store_operation env.now op n.db o ≡ r
      → Q op
      → Holds P Q n
      → Holds P Q (attempt f env op n r).1
  unfolding attempt
  attempt-Holds f k op n o (err e) s q h = h
  attempt-Holds f k op n o (ok db) s q h =
      conclude-Holds f k op (record n { db = db }) _ refl q
        (record { tables = rule.stored op n.db o s h.tables; deferred = h.deferred })

  pub within-Holds :
      (d : ℕ) (op : Operation) (n : Node)
      → Q op
      → Holds P Q n
      → Holds P Q (apply_operation_within env d op n).1
  unfolding apply_operation_within
  within-Holds zero op n q h = h
  within-Holds (suc d) op n q h =
      let after =
        attempt-Holds (apply_operation_within env d) (within-Holds d) op n
          (get_operation_by_id op.operation_id n.db) _ refl q h in
      elim (Bool-cases (is_applied (get_operation_by_id op.operation_id n.db))) [
        | inl e ↦ rw e h
        | inr e ↦ rw e after
      ]
