-- ===== src/AuthService/Rows.antt =====
-- What the statements on users leave behind.
use redcloud_files.Base.{
  String, Bool, true, false, not, ◌&&◌, ◌||◌, Option, none, some, List, [], ◌∷◌, ◌++◌, ◌≡◌, refl,
  ap, arith, inl, inr, str_eq, eq_iff, eq_refl, find, exists, update, Bool-cases,
}
use redcloud_files.Replication.Operation.{UserCreated, ApiKeyUpdated}
use redcloud_files.Replication.Database.{Db, User, Result, ok, err}
use redcloud_files.Replication.Log.{insert_operation}
use redcloud_files.Replication.Users.{is_username, is_user, insert_user}
use redcloud_files.Replication.Emitter.{
  Emission, emit, emit_user_created, emit_api_key_updated, with_id, get_and_increment_vector_clock,
}
use redcloud_files.ChunkClient.{answer}
use redcloud_files.AuthService.{
  Bcrypt, FreshUser, create_user, has_api_key, with_key, set_api_key, update_api_key, registration,
  registered, register_new, logged_in, login_as, id_of,
}

-- the row of a new user
abbrev pub row_of : UserCreated → User
row_of p = record {
  user_id = p.user_id;
  username = p.username;
  password_hash = p.password_hash;
  api_key = p.api_key;
  created_at = p.created_at;
  key_updated_at = p.created_at;
}

abbrev pub clashes : UserCreated → User → Bool
clashes p u = is_user p.user_id u || is_username p.username u || str_eq u.api_key p.api_key

-- create_user leaves the new row behind rows that share none of its three unique columns.
pub create_user-ok :
    (e : Emission) (p : UserCreated) (db : Db) {next : Db}
    → create_user e p db ≡ ok next
    → (next.users ≡ db.users ++ row_of p ∷ []) × (exists (clashes p) db.users ≡ false)
unfolding create_user insert_user emit_user_created emit with_id insert_operation
    get_and_increment_vector_clock
create_user-ok e p db h = ground arith

pub found :
    (p : User → Bool) (u : User) (users : List User)
    → exists p users ≡ false
    → p u ≡ true
    → find p (users ++ u ∷ []) ≡ some u
unfolding exists find
found p u [] h e = ground arith
found p u (v ∷ users) h e = ground (arith, found p u users)

-- After the update of a key the first row with it is one of that user.
pub found_updated :
    (p : ApiKeyUpdated) (users : List User)
    → exists (λ u. not (is_user p.user_id u) && has_api_key p.new_api_key u) users ≡ false
    → exists (is_user p.user_id) users ≡ true
    → id_of (find (has_api_key p.new_api_key) (update (is_user p.user_id) (with_key p) users))
      ≡ some p.user_id
unfolding exists find update id_of
found_updated p [] h e = cc
found_updated p (u ∷ users) h e =
    ground (arith, found_updated p users, eq_iff u.user_id p.user_id, eq_refl p.new_api_key)

pub not_found_updated :
    (p : ApiKeyUpdated) (old : String) (users : List User)
    → exists (λ u. not (is_user p.user_id u) && has_api_key old u) users ≡ false
    → str_eq p.new_api_key old ≡ false
    → find (has_api_key old) (update (is_user p.user_id) (with_key p) users) ≡ none
unfolding exists find update
not_found_updated p old [] h ne = refl
not_found_updated p old (u ∷ users) h ne = ground (arith, not_found_updated p old users)

pub update_api_key-ok :
    (e : Emission) (p : ApiKeyUpdated) (db : Db) {next : Db}
    → update_api_key e p db ≡ ok next
    → (next.users ≡ update (is_user p.user_id) (with_key p) db.users)
      × (exists (λ u. not (is_user p.user_id u) && has_api_key p.new_api_key u) db.users ≡ false)
unfolding update_api_key set_api_key emit_api_key_updated emit with_id insert_operation
    get_and_increment_vector_clock
update_api_key-ok e p db h = ground arith

pub find-user :
    (username : String) (users : List User) {user : User}
    → find (is_username username) users ≡ some user
    → exists (is_user user.user_id) users ≡ true
unfolding find exists
find-user username [] h = cc
find-user username (u ∷ users) {user} h = elim (Bool-cases (is_username username u)) [
  | inl e ↦
      let same : some u ≡ some user = rw e at h in
      let id : u.user_id ≡ user.user_id =
        ap (λ (o : Option User). elim o [ none ↦ u.user_id | some v ↦ v.user_id ]) same in
      ground (arith, eq_iff u.user_id user.user_id)
  | inr e ↦ ground (arith, find-user username users {user = user} (rw e at h))
]

pub registered-ok :
    (key id : String) (db : Db) (o : Result Db) {r : String × String} {next : Db}
    → registered key id db o ≡ (answer r, next)
    → (o ≡ ok next) × (r ≡ (key, id))
unfolding registered
registered-ok key id db (ok n) h = ground arith
registered-ok key id db (err e) h = absurd (cc)

pub logged_in-ok :
    (key : String) (db : Db) (o : Result Db) {r : String} {next : Db}
    → logged_in key db o ≡ (answer r, next)
    → (o ≡ ok next) × (r ≡ key)
unfolding logged_in
logged_in-ok key db (ok n) h = ground arith
logged_in-ok key db (err e) h = absurd (cc)

pub register_new-ok :
    (bcrypt : Bcrypt) (fresh : FreshUser) (username password : String) (existing : Option User)
    (db : Db) {r : String × String} {next : Db}
    → register_new bcrypt fresh username password existing db ≡ (answer r, next)
    → (create_user fresh.emission (registration bcrypt fresh username password) db ≡ ok next)
      × (r ≡ (fresh.api_key, fresh.user_id))
unfolding register_new
register_new-ok bcrypt fresh username password none db h =
    registered-ok fresh.api_key fresh.user_id db _ h
register_new-ok bcrypt fresh username password (some u) db h = absurd (cc)

pub login_as-ok :
    (bcrypt : Bcrypt) (fresh : FreshUser) (password : String) (user : User) (db : Db) {key : String}
    {next : Db}
    → login_as bcrypt fresh password (some user) db ≡ (answer key, next)
    → (bcrypt.verify_password password user.password_hash ≡ true)
      × (update_api_key fresh.emission
            (record {
              user_id = user.user_id;
              new_api_key = fresh.api_key;
              key_updated_at = fresh.now;
            })
            db
          ≡ ok next)
      × (key ≡ fresh.api_key)
unfolding login_as
login_as-ok bcrypt fresh password user db h =
    elim (Bool-cases (bcrypt.verify_password password user.password_hash)) [
      | inl e ↦ let done = logged_in-ok fresh.api_key db _ (rw e at h) in (e, done.0, done.1)
      | inr e ↦ absurd (cc (rw e at h))
    ]
