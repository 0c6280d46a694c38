-- ===== src/Http.antt =====
-- Answers of the controller's HTTP interface: the exception handlers of controller/main.py, the
-- check of the API key in controller/auth.py, and controller/routes/auth_routes.py.
pub mod Tags
pub mod Files
use redcloud_files.Base.{
  ℕ, zero, suc, String, Bool, true, false, not, ◌&&◌, Option, none, some, List, [], ◌∷◌,
  if◌then◌else◌, ◌==◌,
}
use Prim.Native.String
use Prim.Native.Char.{Char, code}
use redcloud_files.Protocol.Json.{Json, str, Fields, end, field}
use redcloud_files.Replication.Database.{Db}
use redcloud_files.ChunkClient.{
  Answer, answer, raises, Exception, user_already_exists, invalid_credentials, file_not_found,
  unauthorized_access, chunkserver_unavailable, empty_tag_list, storage_full, checksum_mismatch,
  rpc_error, other_exception,
}
use redcloud_files.AuthService.{Bcrypt, FreshUser, register_user, login_user, validate_api_key}

-- the body of an answer: JSON text of an object, or any other text
pub data Body : Type 0 where
  json : Fields → Body
  text : String → Body

pub record Response : Type 0 where
  pub status_code : ℕ
  pub body : Body

abbrev pub coded : ℕ → String → String → Response
coded status_code detail code = record {
  status_code = status_code;
  body = json (field "detail" (str detail) (field "code" (str code) end));
}

-- HTTPException: its handler is FastAPI's
abbrev pub http_exception : ℕ → String → Response
http_exception status_code detail = record {
  status_code = status_code;
  body = json (field "detail" (str detail) end);
}

-- What Starlette answers to an exception without a handler
abbrev pub unhandled : Response
unhandled = record { status_code = 500; body = text "Internal Server Error" }

-- `str_of` is the text of an exception. InvalidTagQueryError is in Http/Files; InvalidAPIKeyError and
-- NotImplementedError are raised nowhere.
unfoldable pub handled : (Exception → String) → Exception → Response
handled str_of user_already_exists = coded 400 (str_of user_already_exists) "USER_ALREADY_EXISTS"
handled str_of invalid_credentials = coded 401 (str_of invalid_credentials) "INVALID_CREDENTIALS"
handled str_of file_not_found = coded 404 (str_of file_not_found) "FILE_NOT_FOUND"
handled str_of unauthorized_access = coded 403 (str_of unauthorized_access) "UNAUTHORIZED_ACCESS"
handled str_of chunkserver_unavailable =
    coded 503 (str_of chunkserver_unavailable) "CHUNKSERVER_UNAVAILABLE"
handled str_of storage_full = coded 507 (str_of storage_full) "STORAGE_FULL"
handled str_of checksum_mismatch = coded 500 (str_of checksum_mismatch) "CHECKSUM_MISMATCH"
handled str_of empty_tag_list = coded 500 (str_of empty_tag_list) "INTERNAL_ERROR"
handled str_of (rpc_error code) = unhandled
handled str_of other_exception = unhandled

unfoldable pub responded :
    {A : Type 0} → (Exception → String) → ℕ → (A → Fields) → Answer A → Response
responded str_of status_code fields (answer a) = record {
  status_code = status_code;
  body = json (fields a);
}
responded str_of status_code fields (raises e) = handled str_of e

module _ (str_of : Exception → String) (bcrypt : Bcrypt) (fresh : FreshUser)
    (username password : String) where
  unfoldable pub register : Db → Response × Db
  register db =
      let (result, next) = register_user bcrypt fresh username password db in
      (
        responded str_of 201 (λ r. field "api_key" (str r.0) (field "user_id" (str r.1) end))
            result,
        next,
      )

  unfoldable pub login : Db → Response × Db
  login db =
      let (result, next) = login_user bcrypt fresh username password db in
      (responded str_of 200 (λ key. field "api_key" (str key) end) result, next)

-- `s.startswith(prefix)`
unfoldable pub begins_with : String → String → Bool
begins_with s String.[] = true
begins_with String.[] (String.◌∷◌ c prefix) = false
begins_with (String.◌∷◌ d s) (String.◌∷◌ c prefix) = (code c == code d) && begins_with s prefix

-- `s.replace("Bearer ", "")`, with the number of characters of an occurrence that are still to be
-- left out
unfoldable pub without_bearer : ℕ → String → String
without_bearer skipped String.[] = ""
without_bearer (suc skipped) (String.◌∷◌ c s) = without_bearer skipped s
without_bearer zero (String.◌∷◌ c s) =
    let left_out = without_bearer 6 s in
    let kept = without_bearer 0 s in
    if begins_with (String.◌∷◌ c s) "Bearer " then left_out else String.◌∷◌ c kept

pub data CurrentUser : Type 0 where
  user : String → CurrentUser
  refused : Response → CurrentUser

unfoldable pub known_user : Option String → CurrentUser
known_user none = refused (http_exception 401 "Invalid or expired API Key")
known_user (some user_id) = user user_id

unfoldable pub get_current_user : String → Db → CurrentUser
get_current_user authorization db =
    if not (begins_with authorization "Bearer ")
    then refused (http_exception 401 "Invalid authorization header format")
    else known_user (validate_api_key (without_bearer 0 authorization) db)
