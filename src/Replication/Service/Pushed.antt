-- ===== src/Replication/Service/Pushed.antt =====
-- A push that is answered with success has put every operation in the log.
use redcloud_files.Base.{
  String, Bool, true, List, [], ◌∷◌, ◌≡◌, refl, arith, eq_iff, str_eq, exists, Bool-cases, inl, inr,
  sort_by,
}
use redcloud_files.Replication.Operation.{Operation}
use redcloud_files.Replication.Database.{ok, err}
use redcloud_files.Replication.Log.{has_id}
use redcloud_files.Replication.Applier.{Env, Node, Outcome, apply_operation}
use redcloud_files.Replication.AntiEntropy.{sort_operations_by_causality, causal_key_lt}
use redcloud_files.Replication.AntiEntropy.Converges.{
  IsLogged, apply_operation-IsLogged, apply_operation_logs, exists-sort_by,
}
use redcloud_files.Replication.Service.{push_next, push_each, handle_push_operations}

-- `rest` runs on the node that the call leaves, if the push succeeds
push_next-success :
    (rest : Node → Bool × Node) (o : Outcome)
    → (push_next rest o).0 ≡ true
    → ((rest o.1).0 ≡ true) × (push_next rest o ≡ rest o.1)
unfolding push_next
push_next-success rest (ok applied, n) h = (h, refl)
push_next-success rest (err e, n) h = absurd (ground arith)

push_each-IsLogged :
    (env : Env) (id : String) (ops : List Operation) (n : Node)
    → IsLogged id n.db
    → (push_each env ops n).0 ≡ true
    → IsLogged id (push_each env ops n).1.db
unfolding push_each
push_each-IsLogged env id [] n l h = l
push_each-IsLogged env id (op ∷ ops) n l h =
    let next = push_next-success (push_each env ops) (apply_operation env op n) h in
    rw next.1 (
      push_each-IsLogged env id ops (apply_operation env op n).1
        (apply_operation-IsLogged env id op n l) next.0)

push_each_logs :
    (env : Env) (id : String) (ops : List Operation) (n : Node)
    → exists (has_id id) ops ≡ true
    → (push_each env ops n).0 ≡ true
    → IsLogged id (push_each env ops n).1.db
unfolding push_each exists
push_each_logs env id [] n m h = absurd (ground arith)
push_each_logs env id (op ∷ ops) n m h =
    let next = push_next-success (push_each env ops) (apply_operation env op n) h in
    elim (Bool-cases (str_eq op.operation_id id)) [
      | inl e ↦ rw next.1 (
          push_each-IsLogged env id ops (apply_operation env op n).1
            (ground (arith, eq_iff op.operation_id id, apply_operation_logs env op n)) next.0)
      | inr e ↦
          rw next.1 (push_each_logs env id ops (apply_operation env op n).1 (ground arith) next.0)
    ]

-- Where PushOperations answers with success, every operation of the request is in the log.
pub handle_push_operations-IsLogged :
    (env : Env) (operations : List Operation) (n : Node) (id : String)
    → exists (has_id id) operations ≡ true
    → (handle_push_operations env operations n).0 ≡ true
    → IsLogged id (handle_push_operations env operations n).1.db
unfolding handle_push_operations sort_operations_by_causality
handle_push_operations-IsLogged env operations n id m h =
    push_each_logs env id (sort_by causal_key_lt operations) n
      (ground (arith, exists-sort_by (has_id id) causal_key_lt operations)) h
