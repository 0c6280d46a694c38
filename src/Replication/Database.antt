-- ===== src/Replication/Database.antt =====
-- The tables of controller/database.py that replication reads and writes, in rowid order. SQLite
-- enforces no foreign key here, since no connection turns the `foreign_keys` pragma on.
use redcloud_files.Base.{ℕ, String, List, []}
use redcloud_files.Base.Dict.{Dict}
use redcloud_files.Replication.Operation.{Operation}

pub record User : Type 0 where
  pub user_id : String
  pub username : String
  pub password_hash : String
  pub api_key : String
  pub created_at : String
  pub key_updated_at : String

pub record File : Type 0 where
  pub file_id : String
  pub name : String
  pub size : ℕ
  pub owner_id : String
  pub created_at : String

pub record Tag : Type 0 where
  pub file_id : String
  pub tag : String

pub record Chunk : Type 0 where
  pub chunk_id : String
  pub file_id : String
  pub chunk_index : ℕ
  pub size : ℕ
  pub checksum : String

pub record ClockRow : Type 0 where
  pub sequence : ℕ
  pub last_seen_at : String

pub record Tombstone : Type 0 where
  pub file_id : String
  pub owner_id : String
  pub name : String
  pub deleted_at : String
  pub deleted_by_controller_id : String
  pub operation_id : String

-- `vector_clock_state` is keyed by `controller_id`
pub record Db : Type 0 where
  pub users : List User
  pub files : List File
  pub tags : List Tag
  pub chunks : List Chunk
  pub operations : List Operation
  pub vector_clock_state : Dict ClockRow
  pub file_tombstones : List Tombstone

abbrev pub empty : Db
empty = record {
  users = [];
  files = [];
  tags = [];
  chunks = [];
  operations = [];
  vector_clock_state = [];
  file_tombstones = [];
}

-- Exceptions: a broken UNIQUE or PRIMARY KEY constraint, an index out of range, and
-- DependencyNotMetError with its `required_dependency`.
pub data Error : Type 0 where
  integrity_error index_error : Error
  dependency_not_met : (required_dependency : String) → Error

-- A transaction that raises is closed without a commit, so its writes are lost.
pub data Result {ℓ} (A : Type ℓ) : Type ℓ where
  ok : A → Result A
  err : Error → Result A

infixl 5 ◌>>=◌
abbrev pub ◌>>=◌ {ℓ κ} : {A : Type ℓ} {B : Type κ} → Result A → (A → Result B) → Result B
ok a >>= f = f a
err e >>= f = err e
