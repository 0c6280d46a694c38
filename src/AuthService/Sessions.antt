-- ===== src/AuthService/Sessions.antt =====
-- The keys that registration and login answer are those that open the account.
use redcloud_files.Base.{
  String, true, false, not, ◌&&◌, Option, none, some, ◌≡◌, ◌≢◌, refl, arith, str_eq, eq_refl, find,
  exists, exists_weaken,
}
use redcloud_files.Replication.Operation.{UserCreated, ApiKeyUpdated}
use redcloud_files.Replication.Database.{Db, User, Error, Result, ok, err}
use redcloud_files.Replication.Log.{insert_operation, get_operation_by_id}
use redcloud_files.Replication.Users.{is_username, is_user}
use redcloud_files.Replication.Emitter.{
  Emission, emit, emit_api_key_updated, with_id, get_and_increment_vector_clock,
}
use redcloud_files.ChunkClient.{answer}
use redcloud_files.AuthService.{
  Bcrypt, FreshUser, get_by_username, get_by_api_key, has_api_key, set_api_key, update_api_key,
  registration, register_user, logged_in, login_as, login_user, id_of, validate_api_key,
}
use redcloud_files.AuthService.Rows.{
  row_of, clashes, create_user-ok, found, found_updated, not_found_updated, update_api_key-ok,
  find-user, register_new-ok, login_as-ok,
}

-- The key and the user that register_user answers belong together, and the account is there under its
-- name with the hash of the password.
pub register_user-opens :
    (bcrypt : Bcrypt) (fresh : FreshUser) (username password : String) (db : Db)
    {r : String × String} {next : Db}
    → register_user bcrypt fresh username password db ≡ (answer r, next)
    → (validate_api_key r.0 next ≡ some r.1)
      × (get_by_username username next
          ≡ some (row_of (registration bcrypt fresh username password)))
unfolding register_user validate_api_key get_by_api_key get_by_username id_of registration
register_user-opens bcrypt fresh username password db {r} {next} h =
    let made =
      register_new-ok bcrypt fresh username password (find (is_username username) db.users) db h in
    let p : UserCreated = registration bcrypt fresh username password in
    let rows = create_user-ok fresh.emission p db made.0 in
    let by_key =
      found (has_api_key fresh.api_key) (row_of p) db.users
        (exists_weaken (has_api_key fresh.api_key) (clashes p) db.users (λ u e. ground arith)
          rows.1)
        (eq_refl fresh.api_key) in
    let by_name =
      found (is_username username) (row_of p) db.users
        (exists_weaken (is_username username) (clashes p) db.users (λ u e. ground arith) rows.1)
        (eq_refl username) in
    rw (made.1, rows.0, by_key, by_name) (refl, refl)

-- A login that answers had the password of the user of that name; its key then opens that user's
-- account, and the user's old key opens none, if it is another key and no other user held it.
pub login_user-opens :
    (bcrypt : Bcrypt) (fresh : FreshUser) (username password : String) (user : User) (db : Db)
    {key : String} {next : Db}
    → get_by_username username db ≡ some user
    → exists (λ u. not (is_user user.user_id u) && has_api_key user.api_key u) db.users ≡ false
    → str_eq fresh.api_key user.api_key ≡ false
    → login_user bcrypt fresh username password db ≡ (answer key, next)
    → (bcrypt.verify_password password user.password_hash ≡ true)
      × (validate_api_key key next ≡ some user.user_id)
      × (validate_api_key user.api_key next ≡ none)
unfolding login_user validate_api_key get_by_api_key get_by_username id_of
login_user-opens bcrypt fresh username password user db {key} {next} known alone other h =
    let done = login_as-ok bcrypt fresh password user db (rw known at h) in
    let p : ApiKeyUpdated = record {
      user_id = user.user_id;
      new_api_key = fresh.api_key;
      key_updated_at = fresh.now;
    } in
    let rows = update_api_key-ok fresh.emission p db done.1 in
    (
      done.0,
      rw (done.2, rows.0) (found_updated p db.users rows.1 (find-user username db.users known)),
      rw rows.0 (rw (not_found_updated p user.api_key db.users alone other)),
    )

no_user-login :
    (bcrypt : Bcrypt) (fresh : FreshUser) (password : String) (db : Db) {key : String} {next : Db}
    → login_as bcrypt fresh password none db ≡ (answer key, next)
    → ⊥
unfolding login_as
no_user-login bcrypt fresh password db h = cc

login_as-valid :
    (bcrypt : Bcrypt) (fresh : FreshUser) (username password : String) (o : Option User) (db : Db)
    {key : String} {next : Db}
    → get_by_username username db ≡ o
    → login_as bcrypt fresh password o db ≡ (answer key, next)
    → (user : User) × (get_by_username username db ≡ some user)
      × (validate_api_key key next ≡ some user.user_id)
unfolding validate_api_key get_by_api_key get_by_username id_of
login_as-valid bcrypt fresh username password none db known h =
    absurd (no_user-login bcrypt fresh password db h)
login_as-valid bcrypt fresh username password (some user) db known h =
    let done = login_as-ok bcrypt fresh password user db h in
    let p : ApiKeyUpdated = record {
      user_id = user.user_id;
      new_api_key = fresh.api_key;
      key_updated_at = fresh.now;
    } in
    let rows = update_api_key-ok fresh.emission p db done.1 in
    (
      user,
      known,
      rw (done.2, rows.0) (found_updated p db.users rows.1 (find-user username db.users known)),
    )

-- The key of a login that answers opens the account of that name.
pub login_user-valid :
    (bcrypt : Bcrypt) (fresh : FreshUser) (username password : String) (db : Db) {key : String}
    {next : Db}
    → login_user bcrypt fresh username password db ≡ (answer key, next)
    → (user : User) × (get_by_username username db ≡ some user)
      × (validate_api_key key next ≡ some user.user_id)
unfolding login_user
login_user-valid bcrypt fresh username password db h =
    login_as-valid bcrypt fresh username password (get_by_username username db) db refl h

ok_of : (o : Result Db) → ((e : Error) → o ≢ err e) → (next : Db) × (o ≡ ok next)
ok_of (ok next) h = (next, refl)
ok_of (err e) h = absurd (h e refl)

update_api_key-total :
    (e : Emission) (p : ApiKeyUpdated) (db : Db)
    → exists (λ u. not (is_user p.user_id u) && has_api_key p.new_api_key u) db.users ≡ false
    → get_operation_by_id e.operation_id db ≡ none
    → (x : Error) → update_api_key e p db ≢ err x
unfolding update_api_key set_api_key emit_api_key_updated emit with_id insert_operation
    get_and_increment_vector_clock get_operation_by_id
update_api_key-total e p db alone fresh x = ground arith

-- A user who has registered can log in with the password, if bcrypt accepts it against its own hash, no
-- user holds the new key and no operation has the new id: the login answers the new key, and the key
-- opens the account that was registered.
pub login_user-register_user :
    (bcrypt : Bcrypt) (first second : FreshUser) (username password : String) (db : Db)
    {r : String × String} {next : Db}
    → register_user bcrypt first username password db ≡ (answer r, next)
    → bcrypt.verify_password password (bcrypt.hash_password password) ≡ true
    → exists (has_api_key second.api_key) next.users ≡ false
    → get_operation_by_id second.emission.operation_id next ≡ none
    → ((login_user bcrypt second username password next).0 ≡ answer second.api_key)
      × (validate_api_key second.api_key (login_user bcrypt second username password next).1
          ≡ some r.1)
unfolding login_user login_as logged_in validate_api_key get_by_api_key registration
login_user-register_user bcrypt first second username password db {r} {next} h law alone unused =
    let opened = register_user-opens bcrypt first username password db h in
    let made =
      register_new-ok bcrypt first username password (get_by_username username db) db {r = r}
        {next = next} (unfold register_user in h) in
    let p : ApiKeyUpdated = record {
      user_id = first.user_id;
      new_api_key = second.api_key;
      key_updated_at = second.now;
    } in
    let free =
      exists_weaken (λ u. not (is_user first.user_id u) && has_api_key second.api_key u)
        (has_api_key second.api_key) next.users (λ u e. ground arith) alone in
    let (last, done) =
      ok_of (update_api_key second.emission p next)
        (update_api_key-total second.emission p next free unused) in
    let rows = update_api_key-ok second.emission p next done in
    let known =
      find-user username next.users {user = row_of (registration bcrypt first username password)}
        (unfold get_by_username in opened.1) in
    rw (opened.1, law, done) (refl, rw (rows.0, made.1) (found_updated p next.users free known))
