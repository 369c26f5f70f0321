-- ===== src/Auth.antt =====
-- internal/auth: the accounts, their sessions and tokens, over the tables of users and sessions.
pub mod Signer
pub mod Users
pub mod Sessions
pub mod Lookup
pub mod Revocation
pub mod SignIn
pub mod Accounts
pub mod Oidc
pub mod Groups
pub mod Provisioning
pub mod AccessTokens
pub mod ApiKeys
pub mod Middleware
use unit_management.Base.{
  ℕ, ◌+◌, Bool, true, false, not, ◌&&◌, Option, none, some, List, [], ◌∷◌, ◌==◌, ltb, leb,
  if◌then◌else◌, Result, ok, err, ◌>>=◌, ◌>>◌, guard, or_err,
}
use unit_management.Text.{Text, text_eq}
use unit_management.Database.{Answer, done, duplicate, failed, Table, first}
use unit_management.Models.{Time, User, Session}

-- The errors of the service; a wrapped error of the database, of bcrypt, of the random source or of
-- the signer is `internal`.
pub data AuthError : Type 0 where
  user_not_found username_taken invalid_username password_too_short password_too_long : AuthError
  invalid_credentials invalid_session admin_password_required invalid_token_ttl : AuthError
  invalid_token_name token_not_found internal : AuthError

pub record Tables (T S : Type 0) : Type 0 where
  pub users : T
  pub sessions : S

-- jwt.Claims of go-jose, with times in whole seconds
pub record TokenClaims : Type 0 where
  pub issuer : Text
  pub subject : Text
  pub id : Text
  pub issued_at : Option ℕ
  pub expiry : Option ℕ
  pub not_before : Option ℕ

-- go-jose with the server's key: the JWT that is signed for claims, the claims of a JWT of which the
-- signature verifies, and ValidateWithLeeway for an issuer at a time, without leeway.
pub record Jose : Type 0 where
  pub serialize : TokenClaims → Option Text
  pub parse : Text → Option TokenClaims
  pub validate : TokenClaims → Text → Time → Bool

-- The libraries that the service calls: bcrypt and its comparison, go-jose, and SHA-256 of a session's
-- ID.
pub record Crypto : Type 0 where
  pub hash_password : Text → Option Text
  pub compare_password : Text → Text → Bool
  pub jose : Jose
  pub hash_token : Text → Text

abbrev pub wrap : {A : Type 0} → Answer A → Result AuthError A
wrap (done a) = ok a
wrap duplicate = err internal
wrap failed = err internal

abbrev pub user_by_id : ℕ → User → Bool
user_by_id id u = u.id == id

abbrev pub user_by_name : Text → User → Bool
user_by_name name u = text_eq u.username name

abbrev pub session_of : ℕ → Session → Bool
session_of id s = s.user_id == id

module _ {T S : Type 0} (users : Table T User) (sessions : Table S Session) where
  -- Service.GetUser
  unfoldable pub get_user : Tables T S → ℕ → Result AuthError User
  get_user t id = do user ← wrap (first users t.users (user_by_id id)); or_err user user_not_found
