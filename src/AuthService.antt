-- ===== src/AuthService.antt =====
-- controller/services/auth_service.py with user_repository.py and the check of controller/auth.py.
pub mod Rows
pub mod Sessions
use redcloud_files.Base.{
  ℕ, String, Bool, true, false, not, ◌&&◌, Option, none, some, List, [], ◌∷◌, ◌++◌, if◌then◌else◌,
  str_eq, find, exists, update,
}
use redcloud_files.Replication.Operation.{UserCreated, ApiKeyUpdated}
use redcloud_files.Replication.Database.{Db, User, Result, ok, err, Error, integrity_error, ◌>>=◌}
use redcloud_files.Replication.Users.{is_username, is_user, insert_user}
use redcloud_files.Replication.Emitter.{Emission, emit_user_created, emit_api_key_updated}
use redcloud_files.ChunkClient.{
  Answer, answer, raises, Exception, user_already_exists, invalid_credentials, other_exception,
}

-- bcrypt: `hashpw` with a fresh salt, and `checkpw`
pub record Bcrypt : Type 0 where
  pub hash_password : String → String
  pub verify_password : String → String → Bool

unfoldable pub create_user : Emission → UserCreated → Db → Result Db
create_user e p db = do
  created ← insert_user p db
  (_, emitted) ← emit_user_created e p created
  ok emitted

unfoldable pub get_by_username : String → Db → Option User
get_by_username username db = find (is_username username) db.users

abbrev pub has_api_key : String → User → Bool
has_api_key api_key u = str_eq u.api_key api_key

unfoldable pub get_by_api_key : String → Db → Option User
get_by_api_key api_key db = find (has_api_key api_key) db.users

abbrev pub with_key : ApiKeyUpdated → User → User
with_key p u = record u { api_key = p.new_api_key; key_updated_at = p.key_updated_at }

-- UPDATE users: `api_key` is unique
unfoldable pub set_api_key : ApiKeyUpdated → Db → Result Db
set_api_key p db =
    if exists (λ u. not (is_user p.user_id u) && has_api_key p.new_api_key u) db.users
    then err integrity_error
    else ok (record db { users = update (is_user p.user_id) (with_key p) db.users })

unfoldable pub update_api_key : Emission → ApiKeyUpdated → Db → Result Db
update_api_key e p db = do
  updated ← set_api_key p db
  (_, emitted) ← emit_api_key_updated e p updated
  ok emitted

-- what a registration or a login takes from outside: a UUID, `generate_api_key`, the time and the
-- emission
pub record FreshUser : Type 0 where
  pub user_id : String
  pub api_key : String
  pub now : String
  pub emission : Emission

-- every exception of `create_user` is an IntegrityError of the database
unfoldable pub registered : String → String → Db → Result Db → Answer (String × String) × Db
registered api_key user_id db (ok next) = (answer (api_key, user_id), next)
registered api_key user_id db (err e) = (raises user_already_exists, db)

unfoldable pub registration : Bcrypt → FreshUser → String → String → UserCreated
registration bcrypt fresh username password = record {
  user_id = fresh.user_id;
  username = username;
  password_hash = bcrypt.hash_password password;
  api_key = fresh.api_key;
  created_at = fresh.now;
}

unfoldable pub register_new :
    Bcrypt → FreshUser → String → String → Option User → Db → Answer (String × String) × Db
register_new bcrypt fresh username password (some existing) db = (raises user_already_exists, db)
register_new bcrypt fresh username password none db =
    registered fresh.api_key fresh.user_id db
      (create_user fresh.emission (registration bcrypt fresh username password) db)

unfoldable pub register_user :
    Bcrypt → FreshUser → String → String → Db → Answer (String × String) × Db
register_user bcrypt fresh username password db =
    register_new bcrypt fresh username password (get_by_username username db) db

unfoldable pub logged_in : String → Db → Result Db → Answer String × Db
logged_in api_key db (ok next) = (answer api_key, next)
logged_in api_key db (err e) = (raises other_exception, db)

unfoldable pub login_as : Bcrypt → FreshUser → String → Option User → Db → Answer String × Db
login_as bcrypt fresh password none db = (raises invalid_credentials, db)
login_as bcrypt fresh password (some user) db =
    if not (bcrypt.verify_password password user.password_hash)
    then (raises invalid_credentials, db)
    else logged_in fresh.api_key db (
        update_api_key fresh.emission
          (record {
            user_id = user.user_id;
            new_api_key = fresh.api_key;
            key_updated_at = fresh.now;
          })
          db)

unfoldable pub login_user : Bcrypt → FreshUser → String → String → Db → Answer String × Db
login_user bcrypt fresh username password db =
    login_as bcrypt fresh password (get_by_username username db) db

unfoldable pub id_of : Option User → Option String
id_of none = none
id_of (some user) = some user.user_id

unfoldable pub validate_api_key : String → Db → Option String
validate_api_key api_key db = id_of (get_by_api_key api_key db)
