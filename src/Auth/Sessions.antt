-- ===== src/Auth/Sessions.antt =====
-- internal/auth/auth.go: sign-in, sessions and API tokens. The readings of the clock and the random
-- session IDs are arguments; a session ID is none where the random source fails.
use unit_management.Base.{
  ℕ, ◌+◌, ◌*◌, ◌/◌, Bool, true, false, not, ◌&&◌, ◌||◌, Option, none, some, List, [], ◌∷◌, ◌==◌,
  ltb, leb, Result, ok, err, ◌>>=◌, ◌>>◌, guard, or_err,
}
use unit_management.Text.{Text, text_eq, is_empty, trim_space, rune_count}
use unit_management.Database.{Table, first}
use unit_management.Models.{Time, second, minute, hour, User, Session, has_password}
use unit_management.Auth.Signer.{sign, verify}
use unit_management.Auth.{
  AuthError, user_not_found, invalid_credentials, invalid_session, invalid_token_ttl,
  invalid_token_name, token_not_found, internal, Tables, Crypto, wrap, user_by_name, get_user,
}

abbrev pub min_token_ttl : ℕ
min_token_ttl = minute

abbrev pub max_token_ttl : ℕ
max_token_ttl = 10 * 365 * 24 * hour

abbrev pub max_token_name_length : ℕ
max_token_name_length = 64

-- Time.Truncate(time.Second): the fixed instant lies a whole number of seconds before the zero time.
abbrev pub truncate_second : Time → Time
truncate_second t = (t / second) * second

-- A session that counts: with the hash, of the user, not expired.
abbrev pub live : Text → ℕ → Time → Session → Bool
live hash user_id now s = text_eq s.token_hash hash && s.user_id == user_id && ltb now s.expires_at

unfoldable pub session_row : Text → ℕ → Time → Bool → Text → Session
session_row hash user_id expires_at api_token name = record {
  id = 0;
  token_hash = hash;
  user_id = user_id;
  expires_at = expires_at;
  api_token = api_token;
  name = name;
}

-- newSession
pub record NewSession : Type 0 where
  pub session : Session
  pub token : Text

module _ {T S : Type 0} (users : Table T User) (sessions : Table S Session) (crypto : Crypto) where
  -- createSession
  unfoldable pub create_session :
      Tables T S
      → Option Text
      → ℕ
      → Bool
      → Text
      → ℕ
      → Time
      → Result AuthError (NewSession × Tables T S)
  create_session t session_id user_id api_token name ttl now = do
    sid ← or_err session_id internal
    let expires_at : Time = truncate_second (now + ttl)
    token ← or_err (sign crypto sid user_id now expires_at) internal
    stored ← wrap (
        sessions.insert t.sessions
          (session_row (crypto.hash_token sid) user_id expires_at api_token name))
    ok (record { session = stored.1; token = token }, record t { sessions = stored.0 })

  -- The answer of Login to what the table of users has under the name.
  unfoldable pub sign_in :
      Tables T S
      → Text
      → Option Text
      → ℕ
      → Time
      → Option User
      → Result AuthError ((Text × User × Time) × Tables T S)
  sign_in t password session_id session_ttl now none = err invalid_credentials
  sign_in t password session_id session_ttl now (some user) = do
    guard (has_password user) invalid_credentials
    guard (crypto.compare_password user.password_hash password) invalid_credentials
    created ← create_session t session_id user.id false [] session_ttl now
    ok ((created.0.token, user, created.0.session.expires_at), created.1)

  -- Service.Login
  unfoldable pub login :
      Tables T S
      → Text
      → Text
      → Option Text
      → ℕ
      → Time
      → Result AuthError ((Text × User × Time) × Tables T S)
  unfolding sign_in
  login t username password session_id session_ttl now = do
    user ← wrap (first users t.users (user_by_name (trim_space username)))
    sign_in t password session_id session_ttl now user

  -- Service.CreateToken
  unfoldable pub create_token :
      Tables T S
      → ℕ
      → Text
      → ℕ
      → Option Text
      → Time
      → Result AuthError ((Text × Session) × Tables T S)
  create_token t id name ttl session_id now = do
    let trimmed : Text = trim_space name
    guard (not (is_empty trimmed || ltb max_token_name_length (rune_count trimmed)))
        invalid_token_name
    guard (not (ltb ttl min_token_ttl || ltb max_token_ttl ttl)) invalid_token_ttl
    user ← get_user users sessions t id
    created ← create_session t session_id user.id true trimmed ttl now
    ok ((created.0.token, created.0.session), created.1)

  unfoldable pub revoked : List Session → Tables T S → Result AuthError (Session × Tables T S)
  revoked [] t = err token_not_found
  revoked (s ∷ gone) t = ok (s, t)

  -- Service.RevokeToken
  unfoldable pub revoke_token : Tables T S → ℕ → ℕ → Result AuthError (Session × Tables T S)
  unfolding revoked
  revoke_token t user_id token_id = do
    deletion ←
        wrap (
          sessions.delete t.sessions (λ s. s.user_id == user_id && s.api_token && s.id == token_id))
    revoked deletion.1 (record t { sessions = deletion.0 })

  unfoldable pub owner : Result AuthError User → Result AuthError (Option User)
  owner (ok user) = ok (some user)
  owner (err user_not_found) = ok none
  owner (err e) = err e

  unfoldable pub logged_out :
      Tables T S → List Session → Result AuthError (Option User) × Tables T S
  unfolding owner
  logged_out t [] = (ok none, t)
  logged_out t (s ∷ gone) = (owner (get_user users sessions t s.user_id), t)

  unfoldable pub end_session :
      Tables T S → Result AuthError (S × List Session) → Result AuthError (Option User) × Tables T S
  unfolding logged_out
  end_session t (err e) = (err e, t)
  end_session t (ok (ss, gone)) = logged_out (record t { sessions = ss }) gone

  unfoldable pub verified_logout :
      Tables T S → Time → Option (Text × ℕ) → Result AuthError (Option User) × Tables T S
  unfolding end_session
  verified_logout t now none = (ok none, t)
  verified_logout t now (some (sid, user_id)) = end_session t (
      wrap (
        sessions.delete t.sessions
          (λ s. text_eq s.token_hash (crypto.hash_token sid) && ltb now s.expires_at)))

  -- Service.Logout
  unfoldable pub logout : Tables T S → Text → Time → Result AuthError (Option User) × Tables T S
  unfolding verified_logout
  logout t token now = verified_logout t now (verify crypto now token)

  -- UserForToken for a token that is none of an OIDC provider and none of an API key. The join with
  -- the users finds the session's user, whom the foreign key guarantees.
  unfoldable pub user_for_session : Tables T S → Text → Time → Result AuthError User
  user_for_session t token now = do
    claims ← or_err (verify crypto now token) invalid_session
    found ← wrap (first sessions t.sessions (live (crypto.hash_token claims.0) claims.1 now))
    session ← or_err found invalid_session
    get_user users sessions t session.user_id

  -- One tick of CleanupExpiredSessions
  unfoldable pub cleanup_sessions : Tables T S → Time → Result AuthError (Tables T S)
  cleanup_sessions t now = do
    deletion ← wrap (sessions.delete t.sessions (λ s. leb s.expires_at now))
    ok (record t { sessions = deletion.0 })
