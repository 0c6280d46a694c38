-- ===== src/Replication/Users.antt =====
-- operation_applier.py: the handlers of USER_CREATED and API_KEY_UPDATED.
pub mod Winner
pub mod KeyUpdates
use redcloud_files.Base.{
  ℕ, String, Bool, true, false, not, ◌&&◌, ◌||◌, Option, none, some, List, [], ◌∷◌, ◌++◌, ltb, ◌==◌,
  if◌then◌else◌, str_eq, str_lt, pair_lt, select, find, exists, update, sort_by, length, first,
}
use redcloud_files.VectorClock.{VectorClock, happens_before}
use redcloud_files.Replication.Operation.{
  Operation, UserCreated, ApiKeyUpdated, is_user_created, is_api_key_updated,
}
use redcloud_files.Replication.Database.{
  Db, User, Result, ok, err, integrity_error, index_error, dependency_not_met,
}
use redcloud_files.Replication.Log.{
  get_operations_for_user, mark_operation_applied, merge_vector_clock,
}
use Prim.Native.String

-- the last lines of every handler, and of a handler that skips: both commit
unfoldable pub finish : String → Operation → Db → Result (Bool × Db)
finish now op db =
    ok (true, mark_operation_applied op.operation_id (merge_vector_clock now op.vector_clock db))

unfoldable pub skip : Operation → Db → Result (Bool × Db)
skip op db = ok (false, mark_operation_applied op.operation_id db)

-- the key `(op.timestamp_ms, op.user_id)`
abbrev pub user_key_lt : Operation → Operation → Bool
user_key_lt a b = pair_lt a.timestamp_ms a.user_id b.timestamp_ms b.user_id

unfoldable pub resolve_concurrent_user_creation : List Operation → Option Operation
resolve_concurrent_user_creation operations = first (sort_by user_key_lt operations)

abbrev pub is_username : String → User → Bool
is_username username u = str_eq u.username username

abbrev pub is_user : String → User → Bool
is_user user_id u = str_eq u.user_id user_id

-- INSERT INTO users: `user_id`, `username` and `api_key` are unique
unfoldable pub insert_user : UserCreated → Db → Result Db
insert_user p db =
    if exists (λ u. is_user p.user_id u || is_username p.username u || str_eq u.api_key p.api_key)
      db.users
    then err integrity_error
    else ok (record db {
      users =
          db.users
          ++ record {
            user_id = p.user_id;
            username = p.username;
            password_hash = p.password_hash;
            api_key = p.api_key;
            created_at = p.created_at;
            key_updated_at = p.created_at;
          }
            ∷ [];
    })

-- UPDATE users ... WHERE username = ?, where another user may hold the new `user_id` or `api_key`
unfoldable pub replace_user : UserCreated → Db → Result Db
replace_user p db =
    if exists
      (λ u. not (is_username p.username u) && (is_user p.user_id u || str_eq u.api_key p.api_key))
      db.users
    then err integrity_error
    else ok (record db {
      users =
          update (is_username p.username)
            (λ u. record u {
              user_id = p.user_id;
              password_hash = p.password_hash;
              api_key = p.api_key;
              created_at = p.created_at;
              key_updated_at = p.created_at;
            })
            db.users;
    })

abbrev pub committed : String → Operation → Result Db → Result (Bool × Db)
committed now op (ok db) = finish now op db
committed now op (err e) = err e

-- the winner is this operation, or another one; `sorted_ops[0]` of no operations raises
pub settle_user : String → Operation → UserCreated → Option Operation → Db → Result (Bool × Db)
settle_user now op p none db = err index_error
settle_user now op p (some winner) db =
    if str_eq winner.operation_id op.operation_id
    then committed now op (replace_user p db)
    else skip op db

-- the USER_CREATED operations of the user
unfoldable pub created_ops : String → Db → List Operation
created_ops user_id db =
    select (λ o. is_user_created o.payload) (get_operations_for_user user_id db)

pub resolve_user : String → Operation → UserCreated → Option User → Db → Result (Bool × Db)
resolve_user now op p none db = committed now op (insert_user p db)
resolve_user now op p (some existing) db =
    let all = created_ops existing.user_id db ++ created_ops op.user_id db in
    if ltb 1 (length all)
    then settle_user now op p (resolve_concurrent_user_creation all) db
    else skip op db

unfoldable pub apply_user_created : String → Operation → UserCreated → Db → Result (Bool × Db)
unfolding resolve_user settle_user
apply_user_created now op p db = resolve_user now op p (find (is_username p.username) db.users) db

-- `max(ops, key=timestamp)` after a first operation: the first of those with the greatest key
unfoldable pub max_from : Operation → List Operation → Operation
max_from best [] = best
max_from best (op ∷ ops) = max_from (if ltb best.timestamp_ms op.timestamp_ms then op else best) ops

unfoldable pub latest : List Operation → Option Operation
latest [] = none
latest (op ∷ ops) = some (max_from op ops)

abbrev pub clock : Operation → VectorClock
clock op = record { clocks = op.vector_clock }

-- causally later wins; of concurrent updates the later timestamp; at equal timestamps the smaller id
unfoldable pub should_apply : Operation → Operation → Bool
should_apply incoming current =
    if happens_before (clock incoming) (clock current)
    then false
    else if happens_before (clock current) (clock incoming)
    then true
    else if ltb current.timestamp_ms incoming.timestamp_ms
    then true
    else if ltb incoming.timestamp_ms current.timestamp_ms
    then false
    else str_lt incoming.operation_id current.operation_id

-- UPDATE users SET api_key ... WHERE user_id = ?
unfoldable pub set_api_key : ApiKeyUpdated → Db → Result Db
set_api_key p db =
    if exists (λ u. not (is_user p.user_id u) && str_eq u.api_key p.new_api_key) db.users
    then err integrity_error
    else ok (record db {
      users =
          update (is_user p.user_id)
            (λ u. record u { api_key = p.new_api_key; key_updated_at = p.key_updated_at }) db.users;
    })

unfoldable pub api_key_ops : String → Db → List Operation
api_key_ops user_id db =
    select (λ o. is_api_key_updated o.payload && o.applied == 1)
      (get_operations_for_user user_id db)

pub decide_key : String → Operation → ApiKeyUpdated → Option Operation → Db → Result (Bool × Db)
decide_key now op p none db = committed now op (set_api_key p db)
decide_key now op p (some current) db =
    if should_apply op current then committed now op (set_api_key p db) else skip op db

unfoldable pub user_dependency : String → String
user_dependency user_id = String.◌++◌ "user:" user_id

pub update_key : String → Operation → ApiKeyUpdated → Option User → Db → Result (Bool × Db)
update_key now op p none db = err (dependency_not_met (user_dependency p.user_id))
update_key now op p (some user) db = decide_key now op p (latest (api_key_ops p.user_id db)) db

unfoldable pub apply_api_key_updated : String → Operation → ApiKeyUpdated → Db → Result (Bool × Db)
unfolding update_key decide_key
apply_api_key_updated now op p db = update_key now op p (find (is_user p.user_id) db.users) db
