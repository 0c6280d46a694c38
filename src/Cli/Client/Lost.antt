-- ===== src/Cli/Client/Lost.antt =====
-- A registration whose answer is lost.
use redcloud_files.Base.{ℕ, zero, suc, String, true, false, Option, some, [], ◌∷◌, ◌≡◌, refl}
use redcloud_files.Base.Dict
use redcloud_files.Protocol.Json.{Json, look_up}
use redcloud_files.Replication.Database.{Db, User}
use redcloud_files.ChunkClient.{answer, raises, Exception, user_already_exists}
use redcloud_files.AuthService.{
  Bcrypt, FreshUser, registration, register_user, register_new, get_by_username,
}
use redcloud_files.AuthService.Rows.{row_of}
use redcloud_files.AuthService.Sessions.{register_user-opens}
use redcloud_files.Http
use redcloud_files.Http.{Response, handled, responded, coded}
use redcloud_files.Cli.Client.{
  Outcome, responds, returned, reply, Tried, request_with_retry, attempts_from, after_outcome,
  slept, is_retried, should_retry_for_consistency, format_error, error_text, known_message,
  or_default, shown,
}
use redcloud_files.Cli.Client.Accounts.{registration_failed, registration_reply, register}
use redcloud_files.Cli.Client.Server.{
  Server, Failure, unanswered, reported, next_fate, delivered, send,
}
use redcloud_files.Cli.Client.Sessions.{register_route}

second_attempt :
    {S : Type 0} (request : S → Outcome × S) (backoff left : ℕ) (s : S) (o : Outcome) (r : Response)
    (middle last : S)
    → request s ≡ (o, middle)
    → is_retried o ≡ true
    → request middle ≡ (responds r, last)
    → is_retried (responds r) ≡ false
    → ((request_with_retry
          (record { max_retries = suc left; retry_backoff_multiplier = backoff })
          request
          s).result
        ≡ returned r)
      × ((request_with_retry
            (record { max_retries = suc left; retry_backoff_multiplier = backoff })
            request
            s).state
          ≡ last)
unfolding request_with_retry attempts_from after_outcome slept reply
second_attempt request backoff zero s o r middle last first again second final =
    rw (first, again, second) (refl, refl)
second_attempt request backoff (suc left) s o r middle last first again second final =
    rw (first, again, second, final) (refl, refl)

already :
    (bcrypt : Bcrypt) (fresh : FreshUser) (username password : String) (db : Db) {user : User}
    → get_by_username username db ≡ some user
    → register_user bcrypt fresh username password db ≡ (raises user_already_exists, db)
unfolding register_user register_new
already bcrypt fresh username password db known = rw known refl

module _ (str_of : Exception → String) (bcrypt : Bcrypt) (username password : String)
    (fresh : ℕ → FreshUser) where
  first_request :
      (k : ℕ) (failure : Failure) (db : Db) {r : String × String} {next : Db}
      → register_user bcrypt (fresh k) username password db ≡ (answer r, next)
      → send
          (register_route str_of bcrypt username password fresh)
          (record { db = db; fates = unanswered failure ∷ []; sent = k })
        ≡ (reported failure, record { db = next; fates = []; sent = suc k })
  unfolding send next_fate delivered Http.register
  first_request k failure db made = rw made refl

  second_request :
      (k : ℕ) (db : Db) {user : User}
      → get_by_username username db ≡ some user
      → send
          (register_route str_of bcrypt username password fresh)
          (record { db = db; fates = []; sent = k })
        ≡ (
          responds (handled str_of user_already_exists),
          record { db = db; fates = []; sent = suc k },
        )
  unfolding send next_fate delivered Http.register responded
  second_request k db known = rw (already bcrypt (fresh k) username password db known) refl

taken :
    (str_of : Exception → String)
    → is_retried (responds (handled str_of user_already_exists)) ≡ false
unfolding is_retried should_retry_for_consistency handled
taken str_of = refl

taken_message :
    (str_json : Json → String) (str_of : Exception → String) (old : Option String)
    (t : Tried Server) {last : Server}
    → t.result ≡ returned (handled str_of user_already_exists)
    → t.state ≡ last
    → registration_reply str_json old t ≡ (
      registration_failed "Username already taken. Try logging in or choose a different username.",
      record { api_key = old; state = last },
    )
unfolding registration_reply format_error error_text known_message handled shown or_default look_up
    Dict.lookup
taken_message str_json str_of old t e s = rw (e, s) refl

-- Where the controller registers a user and its answer is lost by a failure that is retried, at
-- least one retry is allowed and nothing else fails, the next attempt is refused and register says
-- that the name is taken: the account is there and the client keeps the key that it had before.
pub register_lost :
    (str_json : Json → String) (str_of : Exception → String) (bcrypt : Bcrypt)
    (username password : String) (fresh : ℕ → FreshUser) (backoff left k : ℕ) (failure : Failure)
    (db : Db) (old : Option String) {r : String × String} {next : Db}
    → is_retried (reported failure) ≡ true
    → register_user bcrypt (fresh k) username password db ≡ (answer r, next)
    → (register str_json
          (record { max_retries = suc left; retry_backoff_multiplier = backoff })
          (send (register_route str_of bcrypt username password fresh))
          (record {
            api_key = old;
            state = record { db = db; fates = unanswered failure ∷ []; sent = k };
          })
        ≡ (
          registration_failed
              "Username already taken. Try logging in or choose a different username.",
          record { api_key = old; state = record { db = next; fates = []; sent = suc (suc k) } },
        ))
      × (get_by_username username next
          ≡ some (row_of (registration bcrypt (fresh k) username password)))
unfolding register
register_lost str_json str_of bcrypt username password fresh backoff left k failure db old {r}
      {next} again made =
    let account = register_user-opens bcrypt (fresh k) username password db made in
    let request = send (register_route str_of bcrypt username password fresh) in
    let first : Server = record { db = db; fates = unanswered failure ∷ []; sent = k } in
    let middle : Server = record { db = next; fates = []; sent = suc k } in
    let last : Server = record { db = next; fates = []; sent = suc (suc k) } in
    let one : request first ≡ (reported failure, middle) =
      first_request str_of bcrypt username password fresh k failure db made in
    let two : request middle ≡ (responds (handled str_of user_already_exists), last) =
      second_request str_of bcrypt username password fresh (suc k) next account.1 in
    let tried =
      second_attempt request backoff left first (reported failure)
        (handled str_of user_already_exists) middle last one again two (taken str_of) in
    (taken_message str_json str_of old _ tried.0 tried.1, account.1)
