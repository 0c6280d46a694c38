-- ===== src/Replication/Applier/Raises.antt =====
-- Which operations wait for a dependency, under which keys, and what handlers leave alone.
use redcloud_files.Base.{String, Bool, List, [], ◌∷◌, ◌++◌, ◌≡◌, ◌≢◌, refl, arith}
use redcloud_files.Replication.Operation.{
  Operation, Payload, UserCreated, ApiKeyUpdated, FileCreated, FileDeleted, TagsChanged,
  ChunkDescriptor, ChunksCreated, user_created, api_key_updated, file_created, file_deleted,
  tags_added, tags_removed, chunks_created, unknown,
}
use redcloud_files.Replication.Database.{Db, Chunk, ok, err, dependency_not_met}
use redcloud_files.Replication.Users.{
  finish, skip, insert_user, replace_user, set_api_key, apply_user_created, apply_api_key_updated,
  user_dependency,
}
use redcloud_files.Replication.Files.{
  insert_file, replace_file, apply_file_created, apply_file_deleted,
}
use redcloud_files.Replication.Tags.{apply_tags_added, apply_tags_removed, file_dependency}
use redcloud_files.Replication.Chunks.{
  apply_chunks_created, insert_chunk, store_chunk, store_chunks,
}
use redcloud_files.Replication.Applier.{Node, Env, get_dependency_key, dispatch}
use Prim.Native.Char.{Char}
use Prim.Native.String
use Prim.Native.String.append

append-ne : (c : Char) (s t : String) → String.◌++◌ (String.◌∷◌ c s) t ≢ String.[]
append-ne c s t e = cc (append.cons c s t)

user_dependency-ne : (id : String) → user_dependency id ≢ ""
unfolding user_dependency
user_dependency-ne id = append-ne _ _ id

file_dependency-ne : (id : String) → file_dependency id ≢ ""
unfolding file_dependency
file_dependency-ne id = append-ne _ _ id

module _ (now : String) (op : Operation) (db : Db) (k : String) where
  user_created-waits :
      (p : UserCreated) → apply_user_created now op p db ≢ err (dependency_not_met k)
  unfolding apply_user_created insert_user replace_user finish skip
  user_created-waits p e = ground arith

  file_created-waits :
      (likes : String → Payload → Bool) (p : FileCreated)
      → apply_file_created now likes op p db ≢ err (dependency_not_met k)
  unfolding apply_file_created insert_file replace_file finish skip
  file_created-waits likes p e = ground arith

  api_key_updated-waits :
      (p : ApiKeyUpdated) → apply_api_key_updated now op p db ≡ err (dependency_not_met k) → k ≢ ""
  unfolding apply_api_key_updated set_api_key finish skip
  api_key_updated-waits p e = ground (arith, user_dependency-ne p.user_id)

  file_deleted-waits :
      (p : FileDeleted) → apply_file_deleted now op p db ≢ err (dependency_not_met k)
  unfolding apply_file_deleted finish skip
  file_deleted-waits p e = ground arith

  tags_added-waits :
      (p : TagsChanged) → apply_tags_added now op p db ≡ err (dependency_not_met k) → k ≢ ""
  unfolding apply_tags_added finish skip
  tags_added-waits p e = ground (arith, file_dependency-ne p.file_id)

  tags_removed-waits :
      (p : TagsChanged) → apply_tags_removed now op p db ≡ err (dependency_not_met k) → k ≢ ""
  unfolding apply_tags_removed finish skip
  tags_removed-waits p e = ground (arith, file_dependency-ne p.file_id)

store_chunks-waits :
    (file_id k : String) (chunks : List ChunkDescriptor) (rows : List Chunk)
    → store_chunks file_id chunks rows ≢ err (dependency_not_met k)
unfolding store_chunks store_chunk insert_chunk
store_chunks-waits file_id k [] rows e = cc
store_chunks-waits file_id k (c ∷ chunks) rows e = ground (
  arith,
  store_chunks-waits file_id k chunks rows,
  store_chunks-waits file_id k chunks (
      rows
      ++ record {
        chunk_id = c.chunk_id;
        file_id = file_id;
        chunk_index = c.chunk_index;
        size = c.size;
        checksum = c.checksum;
      }
        ∷ []),
)

chunks_created-waits :
    (now : String) (skipped : List String) (op : Operation) (db : Db) (k : String)
    (p : ChunksCreated)
    → apply_chunks_created now skipped op p db ≡ err (dependency_not_met k)
    → k ≢ ""
unfolding apply_chunks_created finish skip
chunks_created-waits now skipped op db k p e =
    ground (arith, file_dependency-ne p.file_id, store_chunks-waits p.file_id k p.chunks db.chunks)

-- A handler that raises DependencyNotMetError names a key, and its operation satisfies none.
pub dispatch-waits :
    (env : Env) (op : Operation) (n : Node) (p : Payload) (k : String)
    → dispatch env op n p ≡ err (dependency_not_met k)
    → (k ≢ "") × (get_dependency_key p ≡ "")
unfolding dispatch get_dependency_key
dispatch-waits env op n (user_created p) k e =
    ground (arith, user_created-waits env.now op n.db k p)
dispatch-waits env op n (file_created p) k e =
    ground (arith, file_created-waits env.now op n.db k env.likes p)
dispatch-waits env op n (file_deleted p) k e =
    ground (arith, file_deleted-waits env.now op n.db k p)
dispatch-waits env op n (unknown t) k e = cc
dispatch-waits env op n (api_key_updated p) k e =
    (api_key_updated-waits env.now op n.db k p (ground arith), refl)
dispatch-waits env op n (tags_added p) k e =
    (tags_added-waits env.now op n.db k p (ground arith), refl)
dispatch-waits env op n (tags_removed p) k e =
    (tags_removed-waits env.now op n.db k p (ground arith), refl)
dispatch-waits env op n (chunks_created p) k e =
    (chunks_created-waits env.now n.skipped_file_ids op n.db k p (ground arith), refl)

-- A handler changes neither the waiting operations nor their keys.
pub dispatch-deferred :
    (env : Env) (op : Operation) (n : Node) (p : Payload) {b : Bool} {n' : Node}
    → dispatch env op n p ≡ ok (b, n')
    → (n'.deferred ≡ n.deferred) × (n'.dependencies ≡ n.dependencies)
unfolding dispatch
dispatch-deferred env op n (user_created p) e = ground arith
dispatch-deferred env op n _ e = ground arith
