-- ===== src/Cli/Client.antt =====
-- cli/controller_client.py: requests with retries and the messages of errors; with the API key of
-- cli/config.py.
pub mod Accounts
pub mod Attempts
pub mod Server
pub mod Sessions
pub mod Lost
pub mod Commands
pub mod Routes
pub mod Listing
pub mod Transfers
pub mod Whole
use redcloud_files.Base.{
  ℕ, zero, suc, ◌+◌, ◌*◌, String, Bool, true, false, not, ◌&&◌, ◌||◌, Option, none, some, List, [],
  ◌∷◌, if◌then◌else◌, ◌==◌, leb, ltb, mem, str_eq,
}
use Prim.Native.String.{◌++◌}
use redcloud_files.Base.Dict
use redcloud_files.Protocol.Json.{Json, str, Fields, end, field, look_up}
use redcloud_files.Http.{Body, json, text, Response}

-- what becomes of a request
pub data Outcome : Type 0 where
  responds : Response → Outcome
  connect_error timeout_exception other_exception : Outcome

abbrev pub consistency_retry_codes : List String
consistency_retry_codes = "FILE_NOT_FOUND" ∷ "INVALID_CREDENTIALS" ∷ "INVALID_API_KEY" ∷ []

-- `error_data.get(key, default)`
unfoldable pub or_default : String → Option Json → Json
or_default default none = str default
or_default default (some value) = value

unfoldable pub extract_error_code : Response → Json
extract_error_code response = elim response.body [
  | json fields ↦ or_default "UNKNOWN" (look_up "code" fields)
  | text t ↦ str "UNKNOWN"
]

-- `code in codes`
unfoldable pub is_among : List String → Json → Bool
is_among codes (str code) = mem code codes
is_among codes _ = false

unfoldable pub should_retry_for_consistency : Response → Bool
should_retry_for_consistency response =
    if not (response.status_code == 401 || response.status_code == 404)
    then false
    else is_among consistency_retry_codes (extract_error_code response)

-- whether `_request_with_retry` tries again, if attempts are left
unfoldable pub is_retried : Outcome → Bool
is_retried (responds response) =
    if leb 400 response.status_code && ltb response.status_code 500
    then should_retry_for_consistency response
    else leb 500 response.status_code
is_retried connect_error = true
is_retried timeout_exception = true
is_retried other_exception = false

-- the messages of ConnectionError, with the number of attempts, and an exception that is not caught
pub data Raised : Type 0 where
  cannot_connect request_timed_out : ℕ → Raised
  not_caught : Raised

pub data Reply : Type 0 where
  returned : Response → Reply
  raised : Raised → Reply

unfoldable pub reply : ℕ → Outcome → Reply
reply attempts (responds response) = returned response
reply attempts connect_error = raised (cannot_connect attempts)
reply attempts timeout_exception = raised (request_timed_out attempts)
reply attempts other_exception = raised not_caught

-- the reply, the delays between the attempts, and the state of what answers
pub record Tried (S : Type 0) : Type 0 where
  pub result : Reply
  pub delays : List ℕ
  pub state : S

unfoldable pub power : ℕ → ℕ → ℕ
power backoff zero = 1
power backoff (suc attempt) = backoff * power backoff attempt

-- `get_retry_config`
pub record RetryConfig : Type 0 where
  pub max_retries : ℕ
  pub retry_backoff_multiplier : ℕ

module _ {S : Type 0} (retried : Outcome → Bool) where
  unfoldable pub slept : ℕ → Tried S → Tried S
  slept delay t = record t { delays = delay ∷ t.delays }

  unfoldable pub after_outcome : ℕ → ℕ → (S → Tried S) → Outcome × S → Tried S
  after_outcome delay attempts again (outcome, next) =
      let tried_again = slept delay (again next) in
      if retried outcome
      then tried_again
      else record { result = reply attempts outcome; delays = []; state = next }

  -- The loop of attempts, here and for uploads and downloads, which differ in what they try again.
  -- `send` is one request; the numbers are that of the attempt and of those that may follow it.
  unfoldable pub attempts_from : ℕ → ℕ → (S → Outcome × S) → ℕ → ℕ → S → Tried S
  attempts_from backoff total send attempt zero s =
      let (outcome, next) = send s in
      record { result = reply total outcome; delays = []; state = next }
  attempts_from backoff total send attempt (suc left) s =
      after_outcome (power backoff attempt) total
        (attempts_from backoff total send (suc attempt) left) (send s)

unfoldable pub request_with_retry : {S : Type 0} → RetryConfig → (S → Outcome × S) → S → Tried S
request_with_retry config send s =
    attempts_from is_retried config.retry_backoff_multiplier (suc config.max_retries) send 0
      config.max_retries s

abbrev pub error_messages : Dict.Dict String
error_messages =
    ("NOT_IMPLEMENTED", "Feature not yet implemented on the server (expected behavior).")
    ∷ ("INVALID_API_KEY", "Not authenticated. Please run: login <username> <password>")
    ∷ (
      "USER_ALREADY_EXISTS",
      "Username already taken. Try logging in or choose a different username.",
    )
    ∷ ("INVALID_CREDENTIALS", "Invalid username or password.")
    ∷ ("FILE_NOT_FOUND", "File not found on server.")
    ∷ ("UNAUTHORIZED_ACCESS", "You do not have permission to access this file.")
    ∷ (
      "CHUNKSERVER_UNAVAILABLE", "Storage server is currently unavailable. Please try again later.",
    )
    ∷ ("INVALID_TAG_QUERY", "Invalid tag query. Tags must be alphanumeric.")
    ∷ ("STORAGE_FULL", "Storage capacity exceeded. Please delete some files.")
    ∷ ("CHECKSUM_MISMATCH", "File integrity check failed during upload/download.")
    ∷ []

unfoldable pub status_message : ℕ → Option String
status_message status_code =
    if status_code == 400
    then some "Bad request"
    else if status_code == 401
    then some "Not authenticated"
    else if status_code == 403
    then some "Access forbidden"
    else if status_code == 404
    then some "Not found"
    else if status_code == 413
    then some "File too large"
    else if status_code == 500
    then some "Server error"
    else if status_code == 501
    then some "Feature not implemented (expected behavior)"
    else if status_code == 503
    then some "Service unavailable"
    else if status_code == 507
    then some "Insufficient storage"
    else none

-- `response.text if response.text else 'Unknown error'`
unfoldable pub or_unknown : String → String
or_unknown t = if str_eq t "" then "Unknown error" else t

-- `str_json` is what an f-string makes of a JSON value; the text of one is the text itself.
module _ (str_json : Json → String) where
  unfoldable pub shown : Json → String
  shown (str s) = s
  shown v = str_json v

  unfoldable pub message_for : Option String → String → String
  message_for none detail = detail
  message_for (some message) detail = message

  unfoldable pub with_code : String → Json → String
  with_code message code =
      if is_among ("UNKNOWN" ∷ []) code then message else message ++ " (Code: " ++ shown code ++ ")"

  unfoldable pub known_message : Json → Option String
  known_message (str code) = Dict.lookup code error_messages
  known_message _ = none

  unfoldable pub error_text : ℕ → String → Json → String
  error_text status_code detail code = elim (known_message code) [
    | some message ↦ message
    | none ↦ with_code (message_for (status_message status_code) detail) code
  ]

  unfoldable pub format_error : Response → String
  format_error response = elim response.body [
    | json fields ↦
        error_text response.status_code
          (shown (or_default "Unknown error" (look_up "detail" fields)))
          (or_default "UNKNOWN" (look_up "code" fields))
    | text t ↦ error_text response.status_code (or_unknown t) (str "UNKNOWN")
  ]

-- the client with the key that its configuration has, and what answers its requests
pub record Client (S : Type 0) : Type 0 where
  pub api_key : Option String
  pub state : S
