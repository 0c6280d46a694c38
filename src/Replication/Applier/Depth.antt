-- ===== src/Replication/Applier/Depth.antt =====
-- Retries nest two deep at most: an operation that was deferred satisfies no dependency itself.
use redcloud_files.Base.{
  ℕ, suc, String, Bool, true, false, Option, some, none, List, [], ◌∷◌, ◌≡◌, ◌≢◌, refl, sym, ap,
  arith, eq_iff, All, Bool-cases, inl, inr, ◌∙◌,
}
use redcloud_files.Base.Dict
use redcloud_files.Base.Dict.{Dict}
use redcloud_files.Replication.Operation.{Operation}
use redcloud_files.Replication.Database.{
  Db, Result, ok, err, dependency_not_met, integrity_error, index_error,
}
use redcloud_files.Replication.Log.{get_operation_by_id}
use redcloud_files.Replication.Applier.{
  Node, Env, Outcome, get_dependency_key, dispatch, defer_operation, retry_all, retry_waiting,
  check_and_apply_deferred_operations, conclude, attempt, apply_operation_within, apply_operation,
  store_operation, is_applied,
}
use redcloud_files.Replication.Applier.Pending.{AllWaiting, pop_waiting-All}
use redcloud_files.Replication.Applier.Raises.{dispatch-waits, dispatch-deferred}

-- no other operation can wait for this one
abbrev pub IsDependent : Operation → Type 0
IsDependent op = get_dependency_key op.payload ≡ ""

-- Every deferred operation is a dependent one, and nothing waits under the empty key.
pub record IsWaiting (n : Node) : Type 0 where
  pub dependent : AllWaiting IsDependent n.deferred
  pub keyed : Dict.lookup "" n.dependencies ≡ none

module _ (n : Node) (w : IsWaiting n) where
  check-dependent :
      (retry : Operation → Node → Outcome) (op : Operation)
      → IsDependent op
      → check_and_apply_deferred_operations retry op n ≡ n
  unfolding check_and_apply_deferred_operations
  check-dependent retry op h = rw (h, w.keyed)

  defer-IsWaiting :
      (op : Operation) (key : String)
      → IsDependent op
      → key ≢ ""
      → IsWaiting (defer_operation op key n)
  unfolding defer_operation
  defer-IsWaiting op key h ne = record {
    dependent = λ id op' e.
        ground (arith, w.dependent id op', Dict.lookup-insert op.operation_id id op n.deferred);
    keyed = rw Dict.lookup-insert (ground (arith, eq_iff key "", w.keyed));
  }

with_tables :
    (n n' : Node)
    → n'.deferred ≡ n.deferred
    → n'.dependencies ≡ n.dependencies
    → IsWaiting n
    → IsWaiting n'
with_tables n n' d k w = record {
  dependent = λ id op e. w.dependent id op (rw d at e);
  keyed = rw k w.keyed;
}

-- A dependent operation is applied alike at any depth, and keeps the invariant.
module _ (env : Env) where
  abbrev Agrees : (Operation → Node → Outcome) → (Operation → Node → Outcome) → Type 0
  Agrees f g =
      (op : Operation) (n : Node)
      → IsDependent op
      → IsWaiting n
      → (f op n ≡ g op n) × IsWaiting (g op n).1

  conclude-dependent :
      (f g : Operation → Node → Outcome) (op : Operation) (n : Node) (r : Result (Bool × Node))
      → dispatch env op n op.payload ≡ r
      → IsDependent op
      → IsWaiting n
      → (conclude f op n r ≡ conclude g op n r) × IsWaiting (conclude g op n r).1
  unfolding conclude
  conclude-dependent f g op n (ok (true, n')) e h w =
      let same = dispatch-deferred env op n op.payload e in
      let w' = with_tables n n' same.0 same.1 w in
      (
        ap (λ m. (ok true, m)) (check-dependent n' w' f op h ∙ sym (check-dependent n' w' g op h)),
        rw (check-dependent n' w' g op h) w',
      )
  conclude-dependent f g op n (ok (false, n')) e h w =
      let same = dispatch-deferred env op n op.payload e in (refl, with_tables n n' same.0 same.1 w)
  conclude-dependent f g op n (err (dependency_not_met k)) e h w =
      (refl, defer-IsWaiting n w op k h (dispatch-waits env op n op.payload k e).0)
  conclude-dependent f g op n (err integrity_error) e h w = (refl, w)
  conclude-dependent f g op n (err index_error) e h w = (refl, w)

  attempt-dependent :
      (f g : Operation → Node → Outcome) (op : Operation) (n : Node) (r : Result Db)
      → IsDependent op
      → IsWaiting n
      → (attempt f env op n r ≡ attempt g env op n r) × IsWaiting (attempt g env op n r).1
  unfolding attempt
  attempt-dependent f g op n (err e) h w = (refl, w)
  attempt-dependent f g op n (ok db) h w =
      conclude-dependent f g op (record n { db = db }) _ refl h
        (record { dependent = w.dependent; keyed = w.keyed })

  within-dependent :
      (d : ℕ) → Agrees (apply_operation_within env (suc d)) (apply_operation_within env 1)
  unfolding apply_operation_within
  within-dependent d op n h w =
      let both =
        attempt-dependent (apply_operation_within env d) (apply_operation_within env 0) op n
          (store_operation env.now op n.db (get_operation_by_id op.operation_id n.db)) h w in
      elim (Bool-cases (is_applied (get_operation_by_id op.operation_id n.db))) [
        | inl e ↦ rw e (refl, w)
        | inr e ↦ rw e both
      ]

  retry_all-Agrees :
      (f g : Operation → Node → Outcome)
      → Agrees f g
      → (ops : List Operation) (n : Node) → All IsDependent ops
      → IsWaiting n
      → (retry_all f ops n ≡ retry_all g ops n) × IsWaiting (retry_all g ops n)
  unfolding retry_all
  retry_all-Agrees f g h [] n hs w = (refl, w)
  retry_all-Agrees f g h (op ∷ ops) n hs w =
      let (e, w') = h op n hs.0 w in
      let rest = retry_all-Agrees f g h ops (g op n).1 hs.1 w' in rw e rest

  retry_waiting-Agrees :
      (f g : Operation → Node → Outcome)
      → Agrees f g
      → (key : String) (o : Option (List String)) (n : Node) → IsWaiting n
      → (retry_waiting f key o n ≡ retry_waiting g key o n) × IsWaiting (retry_waiting g key o n)
  unfolding retry_waiting
  retry_waiting-Agrees f g h key none n w = (refl, w)
  retry_waiting-Agrees f g h key (some ids) n w =
      let taken = pop_waiting-All ids n.deferred w.dependent in
      retry_all-Agrees f g h _ _ taken.0 (record {
        dependent = taken.1;
        keyed = ground (arith, Dict.lookup-remove key "" n.dependencies, w.keyed);
      })

  conclude-Agrees :
      (f g : Operation → Node → Outcome)
      → Agrees f g
      → (op : Operation) (n : Node) (r : Result (Bool × Node)) → dispatch env op n op.payload ≡ r
      → IsWaiting n
      → (conclude f op n r ≡ conclude g op n r) × IsWaiting (conclude g op n r).1
  unfolding conclude check_and_apply_deferred_operations
  conclude-Agrees f g h op n (ok (true, n')) e w =
      let same = dispatch-deferred env op n op.payload e in
      let key = get_dependency_key op.payload in
      let both =
        retry_waiting-Agrees f g h key (Dict.lookup key n'.dependencies) n'
          (with_tables n n' same.0 same.1 w) in
      (ap (λ m. (ok true, m)) both.0, both.1)
  conclude-Agrees f g h op n (ok (false, n')) e w =
      let same = dispatch-deferred env op n op.payload e in (refl, with_tables n n' same.0 same.1 w)
  conclude-Agrees f g h op n (err (dependency_not_met k)) e w =
      let (ne, dep) = dispatch-waits env op n op.payload k e in
      (refl, defer-IsWaiting n w op k dep ne)
  conclude-Agrees f g h op n (err integrity_error) e w = (refl, w)
  conclude-Agrees f g h op n (err index_error) e w = (refl, w)

  attempt-Agrees :
      (f g : Operation → Node → Outcome)
      → Agrees f g
      → (op : Operation) (n : Node) (r : Result Db) → IsWaiting n
      → (attempt f env op n r ≡ attempt g env op n r) × IsWaiting (attempt g env op n r).1
  unfolding attempt
  attempt-Agrees f g h op n (err e) w = (refl, w)
  attempt-Agrees f g h op n (ok db) w =
      conclude-Agrees f g h op (record n { db = db }) _ refl
        (record { dependent = w.dependent; keyed = w.keyed })

-- From a node whose deferred operations are dependent ones, any depth of nested retries from two on
-- gives what `apply_operation` gives, so the code's unbounded recursion ends; and the node that
-- results is such a node again.
pub apply_operation-depth :
    (env : Env) (d : ℕ) (op : Operation) (n : Node)
    → IsWaiting n
    → (apply_operation_within env (suc (suc d)) op n ≡ apply_operation env op n)
      × IsWaiting (apply_operation env op n).1
unfolding apply_operation apply_operation_within
apply_operation-depth env d op n w =
    let both =
      attempt-Agrees env (apply_operation_within env (suc d)) (apply_operation_within env 1)
        (within-dependent env d) op n
        (store_operation env.now op n.db (get_operation_by_id op.operation_id n.db)) w in
    elim (Bool-cases (is_applied (get_operation_by_id op.operation_id n.db))) [
      | inl e ↦ rw e (refl, w)
      | inr e ↦ rw e both
    ]
