-- ===== src/Replication/AntiEntropy.antt =====
-- controller/replication/anti_entropy_manager.py: the causal sort and one round with a peer, and the
-- replies of the peer's service (grpc_service.py) that the round asks for.
pub mod Causal
pub mod Converges
use redcloud_files.Base.{
  ℕ, zero, suc, ◌+◌, String, Bool, List, [], ◌∷◌, map, ltb, ◌==◌, ◌&&◌, ◌||◌, pair_lt, sort_by, mem,
  set_of, difference,
}
use redcloud_files.Base.Dict.{Dict}
use redcloud_files.Replication.Operation.{Operation}
use redcloud_files.Replication.Database.{Db}
use redcloud_files.Replication.Log.{get_all_operation_ids, get_operations_by_ids}
use redcloud_files.Replication.Applier.{Env, Node, apply_operation}

-- _get_total_clock_value
unfoldable pub get_total_clock_value : Dict ℕ → ℕ
get_total_clock_value [] = 0
get_total_clock_value ((controller_id, sequence) ∷ rest) = sequence + get_total_clock_value rest

-- `<` on the sort keys (total, timestamp_ms, operation_id)
abbrev pub causal_key_lt : Operation → Operation → Bool
causal_key_lt a b =
    ltb (get_total_clock_value a.vector_clock) (get_total_clock_value b.vector_clock)
    || get_total_clock_value a.vector_clock == get_total_clock_value b.vector_clock
      && pair_lt a.timestamp_ms a.operation_id b.timestamp_ms b.operation_id

unfoldable pub sort_operations_by_causality : List Operation → List Operation
sort_operations_by_causality operations = sort_by causal_key_lt operations

-- the loop over the sorted operations; what a call raises is logged and dropped
unfoldable pub apply_each : Env → List Operation → Node → Node
apply_each env [] n = n
apply_each env (op ∷ ops) n = apply_each env ops (apply_operation env op n).1

-- the sets that a round computes from the two logs
unfoldable pub missing_operation_ids : List String → List String → List String
missing_operation_ids theirs mine = difference (set_of theirs) mine

-- One round in which every call answers: GetStateSummary and FetchOperations read the peer's log, and
-- the operations in the result are handed to PushOperations. Only the log of the peer plays a part.
unfoldable pub anti_entropy_round : Env → Db → Node → List Operation × Node
anti_entropy_round env peer n =
    let my_operation_ids = get_all_operation_ids n.db in
    let peer_operation_ids = get_all_operation_ids peer in
    let missing_from_me = missing_operation_ids peer_operation_ids my_operation_ids in
    let missing_from_peer = missing_operation_ids my_operation_ids peer_operation_ids in
    let missing_ops = get_operations_by_ids missing_from_me peer in
    let next = apply_each env (sort_operations_by_causality missing_ops) n in
    (get_operations_by_ids missing_from_peer next.db, next)
