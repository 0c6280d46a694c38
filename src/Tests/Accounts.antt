-- ===== src/Tests/Accounts.antt =====
-- An account that is registered and logged in to.
use redcloud_files.Base.{String, some, [], ◌∷◌, ◌≡◌, refl, str_eq, exists, find}
use redcloud_files.Base.Dict
use redcloud_files.VectorClock.{at}
use redcloud_files.Replication.Database.{Db, User, empty}
use redcloud_files.Replication.Log.{insert_operation, get_operation_by_id}
use redcloud_files.Replication.Users.{insert_user}
use redcloud_files.Replication.Service.{get_current_vector_clock, clock_of_rows}
use redcloud_files.Replication.Emitter.{
  emit, emit_user_created, with_id, get_and_increment_vector_clock,
}
use redcloud_files.ChunkClient.{answer}
use redcloud_files.AuthService.{
  Bcrypt, FreshUser, create_user, get_by_username, registration, registered, register_new,
  register_user, login_user, validate_api_key,
}
use redcloud_files.AuthService.Sessions.{login_user-register_user}

-- A hash that keeps the password stands for bcrypt.
abbrev pub bcrypt : Bcrypt
bcrypt = record { hash_password = λ password. password; verify_password = str_eq }

abbrev pub fresh : String → String → String → FreshUser
fresh id key op = record {
  user_id = id;
  api_key = key;
  now = "t";
  emission = record { controller_id = "A"; operation_id = op; timestamp_ms = 1; now = "t" };
}

abbrev pub registered_db : Db
registered_db = (register_user bcrypt (fresh "u1" "dfs_1" "o1") "ann" "secret" empty).1

pub registered_lem :
    register_user bcrypt (fresh "u1" "dfs_1" "o1") "ann" "secret" empty
    ≡ (answer ("dfs_1", "u1"), registered_db)
unfolding register_user register_new registered create_user insert_user emit_user_created emit
    with_id insert_operation get_operation_by_id get_and_increment_vector_clock
    get_current_vector_clock clock_of_rows at Dict.insert Dict.lookup find exists get_by_username
    registration
registered_lem = refl

login_user-register_user_example :
    ((login_user bcrypt (fresh "" "dfs_2" "o2") "ann" "secret" registered_db).0 ≡ answer "dfs_2")
    × (validate_api_key "dfs_2"
          (login_user bcrypt (fresh "" "dfs_2" "o2") "ann" "secret" registered_db).1
        ≡ some "u1")
unfolding register_user register_new registered create_user insert_user emit_user_created emit
    with_id insert_operation get_operation_by_id get_and_increment_vector_clock
    get_current_vector_clock clock_of_rows at Dict.insert Dict.lookup find exists get_by_username
    registration
login_user-register_user_example =
    login_user-register_user bcrypt (fresh "u1" "dfs_1" "o1") (fresh "" "dfs_2" "o2") "ann" "secret"
      empty registered_lem refl refl refl

abbrev pub ann : User
ann = record {
  user_id = "u1";
  username = "ann";
  password_hash = "secret";
  api_key = "dfs_1";
  created_at = "t";
  key_updated_at = "t";
}

abbrev pub two_users : Db
two_users = record empty {
  users = ann ∷ record ann { user_id = "u2"; username = "bob"; api_key = "dfs_9" } ∷ [];
}
