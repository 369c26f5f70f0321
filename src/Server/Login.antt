-- ===== src/Server/Login.antt =====
-- internal/server/auth_handlers.go: the sign-in request, throttled by the two failure limiters. The
-- readings of the clock within a request are taken to be one. Of the audit log the actions are kept.
pub mod Throttling
use unit_management.Base.{
  ℕ, Bool, true, false, ◌||◌, Option, none, some, List, [], ◌∷◌, ◌++◌, ltb, if◌then◌else◌, take,
  length, Result, ok, err,
}
use unit_management.Text.{Text, is_empty, trim_space, rune_count}
use unit_management.Database.{Table}
use unit_management.Models.{Time, User, Session}
use unit_management.Auth.{AuthError, invalid_credentials, Tables, Crypto}
use unit_management.Auth.Users.{max_username_length}
use unit_management.Auth.Sessions.{login}
use unit_management.Server.RateLimit.{FailureLimiter, retry_after, fail, reset}

pub data Action : Type 0 where
  login_failed logged_in : Action

pub record State (T S : Type 0) : Type 0 where
  pub by_ip : FailureLimiter
  pub by_user : FailureLimiter
  pub tables : Tables T S
  pub audit : List Action

pub record LoginRequest : Type 0 where
  pub username : Text
  pub password : Text

-- A response: its status, and of a sign-in the token, the user and the expiry.
pub data Response : Type 0 where
  bad_request too_many unauthorized internal_error : Response
  signed_in : Text → User → Time → Response

-- truncate (audit_handlers.go)
unfoldable pub truncated : Text → ℕ → Text
truncated s n = if ltb n (rune_count s) then take n s else s

unfoldable pub user_key : Text → Text
user_key username = truncated (trim_space username) max_username_length

module _ {T S A : Type 0} (users : Table T User) (sessions : Table S Session) (crypto : Crypto)
    (parse_ip : Text → Option A) (ip_text : A → Text) where
  unfoldable pub ip_key : Text → Text
  ip_key remote_addr = elim (parse_ip remote_addr) [ none ↦ remote_addr | some a ↦ ip_text a ]

  unfoldable pub answered :
      State T S
      → Text
      → Text
      → Time
      → Result AuthError ((Text × User × Time) × Tables T S)
      → Response × State T S
  answered s ip user now (err invalid_credentials) = (
    unauthorized,
    record s {
      by_ip = fail s.by_ip ip now;
      by_user = fail s.by_user user now;
      audit = s.audit ++ login_failed ∷ [];
    },
  )
  answered s ip user now (err e) = (internal_error, s)
  answered s ip user now (ok ((token, u, expires), t)) = (
    signed_in token u expires,
    record s { by_user = reset s.by_user user; tables = t; audit = s.audit ++ logged_in ∷ [] },
  )

  -- handleLogin; the request is none if its body does not parse.
  unfoldable pub handle_login :
      State T S → Text → Option LoginRequest → Option Text → ℕ → Time → Response × State T S
  handle_login s remote_addr none session_id ttl now = (bad_request, s)
  handle_login s remote_addr (some req) session_id ttl now =
      if is_empty req.username || is_empty req.password
      then (bad_request, s)
      else if ltb 0 (retry_after s.by_ip (ip_key remote_addr) now now)
          || ltb 0 (retry_after s.by_user (user_key req.username) now now)
      then (too_many, s)
      else answered s (ip_key remote_addr) (user_key req.username) now
          (login users sessions crypto s.tables req.username req.password session_id ttl now)
