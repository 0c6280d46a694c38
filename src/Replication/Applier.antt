-- ===== src/Replication/Applier.antt =====
-- operation_applier.py: `apply_operation`, the operations that wait for a dependency, and their
-- retries. No call in these coroutines suspends: the lock is free whenever it is taken, and nothing
-- else is awaited but the coroutines of the module. So each call is one step.
pub mod Raises
pub mod Pending
pub mod Depth
pub mod Keeps
pub mod Effects
pub mod Progress
pub mod Tagged
use redcloud_files.Base.{
  ℕ, zero, suc, String, Bool, true, false, Option, none, some, List, [], ◌∷◌, ◌++◌, ◌==◌,
  if◌then◌else◌, mem, str_eq,
}
use redcloud_files.Base.Dict
use redcloud_files.Base.Dict.{Dict}
use redcloud_files.Replication.Operation.{
  Operation, Payload, user_created, api_key_updated, file_created, file_deleted, tags_added,
  tags_removed, chunks_created, unknown,
}
use redcloud_files.Replication.Database.{Db, Error, Result, ok, err, dependency_not_met}
use redcloud_files.Replication.Log.{get_operation_by_id, insert_operation}
use redcloud_files.Replication.Users.{apply_user_created, apply_api_key_updated, user_dependency}
use redcloud_files.Replication.Files.{Created, apply_file_created, apply_file_deleted}
use redcloud_files.Replication.Tags.{apply_tags_added, apply_tags_removed, file_dependency}
use redcloud_files.Replication.Chunks.{apply_chunks_created}

-- A controller: its database, and the module's globals `_deferred_operations`,
-- `_operation_dependencies` and `_skipped_file_ids`.
pub record Node : Type 0 where
  pub db : Db
  pub deferred : Dict Operation
  pub dependencies : Dict (List String)
  pub skipped_file_ids : List String

-- What the code takes from outside: the clock, and SQLite's LIKE over a payload.
pub record Env : Type 0 where
  pub now : String
  pub likes : String → Payload → Bool

-- `set.add`
abbrev pub add : String → List String → List String
add x xs = if mem x xs then xs else xs ++ x ∷ []

abbrev pub waiting : Option (List String) → List String
waiting none = []
waiting (some ids) = ids

unfoldable pub defer_operation : Operation → String → Node → Node
defer_operation op required_dependency n = record n {
  deferred = Dict.insert op.operation_id op n.deferred;
  dependencies =
      Dict.insert required_dependency
        (add op.operation_id (waiting (Dict.lookup required_dependency n.dependencies)))
        n.dependencies;
}

unfoldable pub get_dependency_key : Payload → String
get_dependency_key (file_created p) = file_dependency p.file_id
get_dependency_key (user_created p) = user_dependency p.user_id
get_dependency_key _ = ""

abbrev pub popped :
    Option Operation → List Operation × Dict Operation → List Operation × Dict Operation
popped none (ops, deferred) = (ops, deferred)
popped (some op) (ops, deferred) = (op ∷ ops, deferred)

-- `_deferred_operations.pop(op_id, None)` for each waiting id: what was found, and what is left
unfoldable pub pop_waiting : List String → Dict Operation → List Operation × Dict Operation
pop_waiting [] deferred = ([], deferred)
pop_waiting (op_id ∷ ids) deferred =
    popped (Dict.lookup op_id deferred) (pop_waiting ids (Dict.remove op_id deferred))

abbrev pub Outcome : Type 0
Outcome = Result Bool × Node

-- the loop over `operations_to_retry`; what a retry raises is logged and dropped
unfoldable pub retry_all : (Operation → Node → Outcome) → List Operation → Node → Node
retry_all retry [] n = n
retry_all retry (op ∷ ops) n = retry_all retry ops (retry op n).1

pub retry_waiting : (Operation → Node → Outcome) → String → Option (List String) → Node → Node
retry_waiting retry key none n = n
retry_waiting retry key (some ids) n =
    let (ops, deferred) = pop_waiting ids n.deferred in
    retry_all retry ops
      (record n { deferred = deferred; dependencies = Dict.remove key n.dependencies })

unfoldable pub check_and_apply_deferred_operations :
    (Operation → Node → Outcome) → Operation → Node → Node
unfolding retry_waiting
check_and_apply_deferred_operations retry applied_operation n =
    let key = get_dependency_key applied_operation.payload in
    retry_waiting retry key (Dict.lookup key n.dependencies) n

abbrev pub is_applied : Option Operation → Bool
is_applied none = false
is_applied (some op) = op.applied == 1

-- `_store_operation`, if the operation is not in the log
unfoldable pub store_operation : String → Operation → Db → Option Operation → Result Db
store_operation now op db none = insert_operation now (record op { applied = 0 }) db
store_operation now op db (some existing) = ok db

abbrev pub in_db : Node → Result (Bool × Db) → Result (Bool × Node)
in_db n (ok (success, db)) = ok (success, record n { db = db })
in_db n (err e) = err e

abbrev pub skip_file : Option String → List String → List String
skip_file none ids = ids
skip_file (some file_id) ids = add file_id ids

abbrev pub in_node : Node → Result Created → Result (Bool × Node)
in_node n (ok c) =
    ok (c.success, record n { db = c.db; skipped_file_ids = skip_file c.lost n.skipped_file_ids })
in_node n (err e) = err e

-- the branch on `operation_type`
unfoldable pub dispatch : Env → Operation → Node → Payload → Result (Bool × Node)
dispatch env op n (user_created p) = in_db n (apply_user_created env.now op p n.db)
dispatch env op n (api_key_updated p) = in_db n (apply_api_key_updated env.now op p n.db)
dispatch env op n (file_created p) = in_node n (apply_file_created env.now env.likes op p n.db)
dispatch env op n (file_deleted p) = in_db n (apply_file_deleted env.now op p n.db)
dispatch env op n (tags_added p) = in_db n (apply_tags_added env.now op p n.db)
dispatch env op n (tags_removed p) = in_db n (apply_tags_removed env.now op p n.db)
dispatch env op n (chunks_created p) =
    in_db n (apply_chunks_created env.now n.skipped_file_ids op p n.db)
dispatch env op n (unknown operation_type) = ok (false, n)

-- What follows the handler. The unknown operation types return False too.
unfoldable pub conclude :
    (Operation → Node → Outcome) → Operation → Node → Result (Bool × Node) → Outcome
conclude retry op n (ok (true, n')) = (ok true, check_and_apply_deferred_operations retry op n')
conclude retry op n (ok (false, n')) = (ok false, n')
conclude retry op n (err (dependency_not_met key)) = (ok false, defer_operation op key n)
conclude retry op n (err e) = (err e, n)

unfoldable pub attempt : (Operation → Node → Outcome) → Env → Operation → Node → Result Db → Outcome
attempt retry env op n (err e) = (err e, n)
attempt retry env op n (ok db) =
    let stored = record n { db = db } in
    conclude retry op stored (dispatch env op stored op.payload)

-- The first argument bounds how deep retries nest; with none left the call does nothing. A depth of
-- two is enough (Applier/Depth).
unfoldable pub apply_operation_within : Env → ℕ → Operation → Node → Outcome
apply_operation_within env zero op n = (ok false, n)
apply_operation_within env (suc depth) op n =
    let existing = get_operation_by_id op.operation_id n.db in
    let body =
      attempt (apply_operation_within env depth) env op n
        (store_operation env.now op n.db existing) in
    if is_applied existing then (ok false, n) else body

unfoldable pub apply_operation : Env → Operation → Node → Outcome
apply_operation env = apply_operation_within env 2

-- The clean-up of start_deferred_operations_manager: the id leaves every set, and empty sets go.
unfoldable pub discard : String → List String → List String
discard op_id [] = []
discard op_id (x ∷ xs) = let rest = discard op_id xs in if str_eq x op_id then rest else x ∷ rest

abbrev pub keep_waiting : String → String → List String → Dict (List String) → Dict (List String)
keep_waiting op_id key ids rest =
    if mem op_id ids
    then elim (discard op_id ids) [ [] ↦ rest | x ∷ xs ↦ (key, x ∷ xs) ∷ rest ]
    else (key, ids) ∷ rest

unfoldable pub forget_waiting : String → Dict (List String) → Dict (List String)
forget_waiting op_id [] = []
forget_waiting op_id ((key, ids) ∷ rest) = keep_waiting op_id key ids (forget_waiting op_id rest)

unfoldable pub retry_deferred : Env → String → Operation → Node → Node
retry_deferred env op_id op n =
    if is_applied (get_operation_by_id op.operation_id n.db)
    then record n {
      deferred = Dict.remove op_id n.deferred;
      dependencies = forget_waiting op_id n.dependencies;
    }
    else (apply_operation env op n).1

unfoldable pub retry_each : Env → Dict Operation → Node → Node
retry_each env [] n = n
retry_each env ((op_id, op) ∷ rest) n = retry_each env rest (retry_deferred env op_id op n)

-- one round of start_deferred_operations_manager
unfoldable pub deferred_operations_round : Env → Node → Node
deferred_operations_round env n = retry_each env n.deferred n
