-- ===== src/Replication/Operation.antt =====
-- Operation of common/protocol.py with its payload, whose keys are those that
-- controller/replication/operation_emitter.py writes for each operation type.
use redcloud_files.Base.{ℕ, String, Bool, true, false, Option, List}
use redcloud_files.Base.Dict.{Dict}

pub record UserCreated : Type 0 where
  pub user_id : String
  pub username : String
  pub password_hash : String
  pub api_key : String
  pub created_at : String

pub record ApiKeyUpdated : Type 0 where
  pub user_id : String
  pub new_api_key : String
  pub key_updated_at : String

pub record FileCreated : Type 0 where
  pub file_id : String
  pub name : String
  pub size : ℕ
  pub owner_id : String
  pub created_at : String
  pub tags : List String
  pub replaced_file_id : Option String

pub record FileDeleted : Type 0 where
  pub file_id : String
  pub name : String
  pub owner_id : String
  pub deleted_at : String
  pub deleted_by_controller_id : String
  pub chunk_ids : List String

pub record TagsChanged : Type 0 where
  pub file_id : String
  pub tags : List String
  pub owner_id : String

-- common/types.py
pub record ChunkDescriptor : Type 0 where
  pub chunk_id : String
  pub chunk_index : ℕ
  pub size : ℕ
  pub checksum : String

pub record ChunksCreated : Type 0 where
  pub file_id : String
  pub chunks : List ChunkDescriptor
  pub owner_id : String

-- `operation_type` and `payload` together; `unknown` is any other operation type
pub data Payload : Type 0 where
  user_created : UserCreated → Payload
  api_key_updated : ApiKeyUpdated → Payload
  file_created : FileCreated → Payload
  file_deleted : FileDeleted → Payload
  tags_added : TagsChanged → Payload
  tags_removed : TagsChanged → Payload
  chunks_created : ChunksCreated → Payload
  unknown : (operation_type : String) → Payload

pub record Operation : Type 0 where
  pub operation_id : String
  pub payload : Payload
  pub user_id : String
  pub timestamp_ms : ℕ
  pub vector_clock : Dict ℕ
  pub applied : ℕ
  pub created_at : String

-- `operation_type == "USER_CREATED"`, and so on
abbrev pub is_user_created : Payload → Bool
is_user_created (user_created p) = true
is_user_created _ = false

abbrev pub is_api_key_updated : Payload → Bool
is_api_key_updated (api_key_updated p) = true
is_api_key_updated _ = false

abbrev pub is_file_created : Payload → Bool
is_file_created (file_created p) = true
is_file_created _ = false

pub operation_type : Payload → String
operation_type (user_created p) = "USER_CREATED"
operation_type (api_key_updated p) = "API_KEY_UPDATED"
operation_type (file_created p) = "FILE_CREATED"
operation_type (file_deleted p) = "FILE_DELETED"
operation_type (tags_added p) = "TAGS_ADDED"
operation_type (tags_removed p) = "TAGS_REMOVED"
operation_type (chunks_created p) = "CHUNKS_CREATED"
operation_type (unknown t) = t
