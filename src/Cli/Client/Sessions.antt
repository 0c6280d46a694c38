-- ===== src/Cli/Client/Sessions.antt =====
-- Registration and login of the client, with the routes, the auth service and the tables behind them.
use redcloud_files.Base.{
  ℕ, suc, ◌==◌, String, true, false, Option, none, some, ◌≡◌, refl, ap, arith, inl, inr, Bool-cases,
}
use redcloud_files.Protocol.Json.{Json, null, bool, int, arr, object, str, look_up}
use redcloud_files.Replication.Database.{Db}
use redcloud_files.ChunkClient
use redcloud_files.ChunkClient.{
  Answer, answer, raises, Exception, user_already_exists, invalid_credentials, file_not_found,
  unauthorized_access, chunkserver_unavailable, empty_tag_list, storage_full, checksum_mismatch,
  rpc_error,
}
use redcloud_files.AuthService.{Bcrypt, FreshUser, login_user, validate_api_key}
use redcloud_files.AuthService.Sessions.{login_user-valid}
use redcloud_files.Http
use redcloud_files.Http.{Response, Body, json, text, handled, responded}
use redcloud_files.Cli.Client.{
  Outcome, responds, Reply, returned, raised, Raised, not_caught, cannot_connect, request_timed_out,
  Tried, RetryConfig, request_with_retry, is_retried, Client,
}
use redcloud_files.Cli.Client.Accounts.{
  login_successful, field_of, save_login, login_reply, login, raised_message,
}
use redcloud_files.Cli.Client.Attempts.{last_attempt, after_requests}
use redcloud_files.Cli.Client.Server.{
  Server, Fate, answered, lost, unanswered, reported, no_connection, timed_out, broken_off,
  next_fate, delivered, send,
}

-- the last request, of a series that ended with a response
last_request :
    {S : Type 0} (request : S → Outcome × S) (config : RetryConfig) (s : S) {r : Response}
    → (request_with_retry config request s).result ≡ returned r
    → (before : S) × (request before ≡ (responds r, (request_with_retry config request s).state))
unfolding request_with_retry
last_request request config s h =
    let (retries, few, again, last) =
      last_attempt is_retried request config.retry_backoff_multiplier (suc config.max_retries) 0
        config.max_retries s h in
    (after_requests is_retried request retries s, last)

handled_status :
    (str_of : Exception → String) (e : Exception) → ((handled str_of e).status_code == 200) ≡ false
unfolding handled
handled_status str_of user_already_exists = refl
handled_status str_of invalid_credentials = refl
handled_status str_of file_not_found = refl
handled_status str_of unauthorized_access = refl
handled_status str_of chunkserver_unavailable = refl
handled_status str_of empty_tag_list = refl
handled_status str_of storage_full = refl
handled_status str_of checksum_mismatch = refl
handled_status str_of (rpc_error code) = refl
handled_status str_of ChunkClient.other_exception = refl

abbrev key_of : Option Json → String
key_of (some (str key)) = key
key_of _ = ""

module _ (str_of : Exception → String) (bcrypt : Bcrypt) (username password : String)
    (fresh : ℕ → FreshUser) where
  -- the controller's answers to the client's logins
  abbrev pub login_route : ℕ → Db → Response × Db
  login_route k db = Http.login str_of bcrypt (fresh k) username password db

  abbrev pub register_route : ℕ → Db → Response × Db
  register_route k db = Http.register str_of bcrypt (fresh k) username password db

  login_answered :
      (k : ℕ) (db : Db) (result : Answer String) (next : Db) (key : String)
      → login_user bcrypt (fresh k) username password db ≡ (result, next)
      → (login_route k db).0.status_code == 200 ≡ true
      → field_of "api_key" (login_route k db).0 ≡ some (str key)
      → (id : String) × (validate_api_key key (login_route k db).1 ≡ some id)
  unfolding Http.login responded field_of look_up
  login_answered k db (answer sent) next key h ok found =
      let (user, known, valid) = login_user-valid bcrypt (fresh k) username password db h in
      let same : sent ≡ key = ap key_of (rw h at found) in rw h (user.user_id, rw same at valid)
  login_answered k db (raises e) next key h ok found =
      let good : (handled str_of e).status_code == 200 ≡ true = rw h at ok in
      let bad = handled_status str_of e in absurd (cc)

delivered_response :
    (fate : Fate) (db : Db) (answer : Response × Db) {r : Response} {next : Db}
    → delivered fate db answer ≡ (responds r, next)
    → (r ≡ answer.0) × (next ≡ answer.1)
unfolding delivered reported
delivered_response answered db (a, n) h = ground arith
delivered_response (lost no_connection) db (a, n) h = absurd (cc)
delivered_response (lost timed_out) db (a, n) h = absurd (cc)
delivered_response (lost broken_off) db (a, n) h = absurd (cc)
delivered_response (unanswered no_connection) db (a, n) h = absurd (cc)
delivered_response (unanswered timed_out) db (a, n) h = absurd (cc)
delivered_response (unanswered broken_off) db (a, n) h = absurd (cc)

served :
    (route : ℕ → Db → Response × Db) (s : Server) {r : Response} {next : Server}
    → send route s ≡ (responds r, next)
    → (r ≡ (route s.sent s.db).0) × (next.db ≡ (route s.sent s.db).1)
unfolding send
served route s h =
    delivered_response (next_fate s.fates).0 s.db (route s.sent s.db)
      (ap (λ (p : Outcome × Server). (p.0, p.1.db)) h)

-- the client has a key, and the key opens an account
abbrev pub Opened : Client Server → Type 0
Opened c =
    (key : String) × (c.api_key ≡ some key)
    × ((id : String) × (validate_api_key key c.state.db ≡ some id))

Opened-login :
    (str_of : Exception → String) (bcrypt : Bcrypt) (username password : String)
    (fresh : ℕ → FreshUser) (before : Server) (key : String) {r : Response} {next : Server}
    {after : Client Server}
    → send (login_route str_of bcrypt username password fresh) before ≡ (responds r, next)
    → r.status_code == 200 ≡ true
    → field_of "api_key" r ≡ some (str key)
    → after ≡ record { api_key = some key; state = next }
    → Opened after
Opened-login str_of bcrypt username password fresh before key last ok found saved =
    let answer = served (login_route str_of bcrypt username password fresh) before last in
    let (id, valid) =
      login_answered str_of bcrypt username password fresh before.sent before.db _ _ key refl
        (rw answer.0 at ok) (rw answer.0 at found) in
    rw saved (key, refl, (id, rw answer.1 valid))

module _ (str_json : Json → String) where
  login_saved :
      (o : Option Json) (c : Client Server)
      → (save_login str_json o c).0 ≡ login_successful
      → (key : String) × (o ≡ some (str key))
        × ((save_login str_json o c).1 ≡ record c { api_key = some key })
  unfolding save_login
  login_saved (some (str key)) c h = (key, refl, refl)
  login_saved none c h = absurd (cc)
  login_saved (some null) c h = absurd (cc)
  login_saved (some (bool b)) c h = absurd (cc)
  login_saved (some (int n)) c h = absurd (cc)
  login_saved (some (arr items)) c h = absurd (cc)
  login_saved (some (object fields)) c h = absurd (cc)

  raised_failed :
      (old : Option String) (t : Tried Server) (e : Raised)
      → t.result ≡ raised e
      → (login_reply str_json old t).0 ≡ login_successful
      → ⊥
  unfolding login_reply raised_message
  raised_failed old t (cannot_connect n) e h = cc (rw e at h)
  raised_failed old t (request_timed_out n) e h = cc (rw e at h)
  raised_failed old t not_caught e h = cc (rw e at h)

  login_reply_saved :
      (old : Option String) (t : Tried Server) (result : Reply)
      → t.result ≡ result
      → (login_reply str_json old t).0 ≡ login_successful
      → (r : Response) × (t.result ≡ returned r)
        × (r.status_code == 200 ≡ true)
        × ((key : String) × (field_of "api_key" r ≡ some (str key))
            × ((login_reply str_json old t).1 ≡ record { api_key = some key; state = t.state }))
  unfolding login_reply
  login_reply_saved old t (returned r) e h = elim (Bool-cases (r.status_code == 200)) [
    | inl ok ↦
        let saved =
          login_saved (field_of "api_key" r) (record { api_key = old; state = t.state })
            (rw (e, ok) at h) in
        (r, e, ok, (saved.0, saved.1, rw (e, ok) saved.2))
    | inr ko ↦ absurd (cc (rw (e, ko) at h))
  ]
  login_reply_saved old t (raised (cannot_connect n)) e h = absurd (raised_failed old t _ e h)
  login_reply_saved old t (raised (request_timed_out n)) e h = absurd (raised_failed old t _ e h)
  login_reply_saved old t (raised not_caught) e h = absurd (raised_failed old t _ e h)

  -- Where login says that it was successful, whatever became of its requests, the client keeps a
  -- key that opens an account at the controller.
  pub login-Opened :
      (str_of : Exception → String) (bcrypt : Bcrypt) (username password : String)
      (fresh : ℕ → FreshUser) (config : RetryConfig) (c : Client Server)
      → (login str_json config (send (login_route str_of bcrypt username password fresh)) c).0
        ≡ login_successful
      → Opened
          (login str_json config (send (login_route str_of bcrypt username password fresh)) c).1
  unfolding login
  login-Opened str_of bcrypt username password fresh config c h =
      let request = send (login_route str_of bcrypt username password fresh) in
      let (r, back, ok, (key, found, saved)) =
        login_reply_saved c.api_key (request_with_retry config request c.state) _ refl h in
      let (before, last) = last_request request config c.state back in
      Opened-login str_of bcrypt username password fresh before key last ok found saved
