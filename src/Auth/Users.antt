-- ===== src/Auth/Users.antt =====
-- internal/auth/users.go, and EnsureAdmin and HasAdmin of auth.go: the accounts.
use unit_management.Base.{
  ℕ, Bool, true, false, not, ◌||◌, Option, none, some, List, [], ◌∷◌, ltb, if◌then◌else◌, length,
  any, Result, ok, err, ◌>>=◌, ◌>>◌, guard, or_err,
}
use unit_management.Text.{Text, is_empty, trim_space, rune_count, byte_len}
use unit_management.Database.{Answer, done, duplicate, failed, Table}
use unit_management.Models.{User, Session}
use unit_management.Auth.{
  AuthError, user_not_found, username_taken, invalid_username, password_too_short,
  password_too_long, admin_password_required, internal, Tables, Crypto, wrap, user_by_id,
  user_by_name, session_of, get_user,
}

abbrev pub min_password_length : ℕ
min_password_length = 8

abbrev pub max_password_bytes : ℕ
max_password_bytes = 72

abbrev pub max_username_length : ℕ
max_username_length = 64

unfoldable pub normalize_username : Text → Result AuthError Text
normalize_username username =
    let trimmed = trim_space username in
    if is_empty trimmed || ltb max_username_length (rune_count trimmed)
    then err invalid_username
    else ok trimmed

unfoldable pub validate_password : Text → Result AuthError (Unit {0})
validate_password password =
    if ltb (rune_count password) min_password_length
    then err password_too_short
    else if ltb max_password_bytes (byte_len password)
    then err password_too_long
    else ok tt

-- A new account with a password; the database gives it its ID.
unfoldable pub new_user : Text → Text → Bool → User
new_user username hash is_admin = record {
  id = 0;
  username = username;
  password_hash = hash;
  is_admin = is_admin;
  oidc_issuer = none;
  oidc_subject = none;
}

-- The error of a failed INSERT of an account.
abbrev pub map_create_error : {A : Type 0} → Answer A → Result AuthError A
map_create_error (done a) = ok a
map_create_error duplicate = err username_taken
map_create_error failed = err internal

module _ {T S : Type 0} (users : Table T User) (sessions : Table S Session) (crypto : Crypto) where
  -- createUser, without the password policy
  unfoldable pub insert_user :
      Tables T S → Text → Text → Bool → Result AuthError (User × Tables T S)
  insert_user t username password is_admin = do
    name ← normalize_username username
    hash ← or_err (crypto.hash_password password) internal
    stored ← map_create_error (users.insert t.users (new_user name hash is_admin))
    ok (stored.1, record t { users = stored.0 })

  -- Service.CreateUser
  unfoldable pub create_user :
      Tables T S → Text → Text → Bool → Result AuthError (User × Tables T S)
  create_user t username password is_admin = do
    validate_password password
    insert_user t username password is_admin

  -- The hash of a new password, if one is given.
  unfoldable pub new_hash : Text → Result AuthError (Option Text)
  new_hash [] = ok none
  new_hash (c ∷ cs) = do
    validate_password (c ∷ cs)
    hash ← or_err (crypto.hash_password (c ∷ cs)) internal
    ok (some hash)

  unfoldable pub changed_user : User → Bool → Option Text → User
  changed_user user is_admin none = record user { is_admin = is_admin }
  changed_user user is_admin (some hash) = record user { is_admin = is_admin; password_hash = hash }

  -- A new password ends the sessions. The source tells a new hash by its not being empty, which
  -- bcrypt's hashes never are.
  unfoldable pub end_sessions : Tables T S → ℕ → Option Text → Result AuthError (Tables T S)
  end_sessions t id none = ok t
  end_sessions t id (some hash) = do
    deletion ← wrap (sessions.delete t.sessions (session_of id))
    ok (record t { sessions = deletion.0 })

  -- Service.UpdateUser; the tables are new only if the transaction succeeds.
  unfoldable pub update_user : Tables T S → ℕ → Bool → Text → Result AuthError (User × Tables T S)
  unfolding changed_user end_sessions
  update_user t id is_admin password = do
    hash ← new_hash password
    user ← get_user users sessions t id
    t' ← end_sessions t id hash
    stored ← wrap (users.update t'.users (user_by_id id) (λ _. changed_user user is_admin hash))
    ok (changed_user user is_admin hash, record t' { users = stored.0 })

  unfoldable pub deleted_user : List User → Tables T S → Result AuthError (User × Tables T S)
  deleted_user [] t = err user_not_found
  deleted_user (user ∷ gone) t = ok (user, t)

  -- Service.DeleteUser; the sessions go with the account (ON DELETE CASCADE).
  unfoldable pub delete_user : Tables T S → ℕ → Result AuthError (User × Tables T S)
  unfolding deleted_user
  delete_user t id = do
    deletion ← wrap (users.delete t.users (user_by_id id))
    cascade ← wrap (sessions.delete t.sessions (λ s. any (user_by_id s.user_id) deletion.1))
    deleted_user deletion.1 (record { users = deletion.0; sessions = cascade.0 })

  -- Service.HasAdmin
  unfoldable pub has_admin : Tables T S → Result AuthError Bool
  has_admin t = do
    admins ← wrap (users.select t.users (λ u. u.is_admin))
    ok (ltb 0 (length admins))

  unfoldable pub first_admin : Tables T S → Text → Text → Result AuthError (Bool × Tables T S)
  first_admin t username password = do
    guard (not (is_empty password)) admin_password_required
    taken ← wrap (users.select t.users (user_by_name (trim_space username)))
    guard (not (ltb 0 (length taken))) username_taken
    stored ← insert_user t username password true
    ok (true, stored.1)

  -- Service.EnsureAdmin
  unfoldable pub ensure_admin : Tables T S → Text → Text → Result AuthError (Bool × Tables T S)
  unfolding first_admin
  ensure_admin t username password = do
    present ← has_admin t
    if present then ok (false, t) else first_admin t username password
