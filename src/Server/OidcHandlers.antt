-- ===== src/Server/OidcHandlers.antt =====
-- internal/server/oidc_handlers.go: the sign-in at an OpenID Connect provider. The values that the
-- cookie of the flow carries are none where there is no such cookie; of a response the place that it
-- redirects to is kept.
use unit_management.Base.{
  ℕ, Bool, false, not, ◌&&◌, ◌||◌, Option, none, some, List, [], ◌∷◌, ◌==◌, if◌then◌else◌, any,
  Result, ok, err,
}
use unit_management.Text.{Text, is_empty}
use unit_management.Database.{Table}
use unit_management.Models.{Time, User, Session, Group, UserGroup}
use unit_management.Auth.{AuthError, Crypto}
use unit_management.Auth.Oidc.{OidcFlow, OidcProvider, OidcError, OidcIdentity, exchange}
use unit_management.Auth.Groups.{Directory}
use unit_management.Auth.Provisioning.{login_oidc}

abbrev pub slash : Text
slash = b'/' ∷ []

abbrev double_slash : Text → Bool
double_slash (a ∷ b ∷ s) = a == b'/' && b == b'/'
double_slash s = false

abbrev starts_with_slash : Text → Bool
starts_with_slash [] = false
starts_with_slash (c ∷ s) = c == b'/'

-- The characters that a redirect may not have: a backslash, a carriage return, a line feed, a tab.
unfoldable pub is_unsafe_char : ℕ → Bool
is_unsafe_char c = c == 92 || c == 13 || c == 10 || c == 9

-- sanitizeRedirectPath
unfoldable pub sanitize_redirect_path : Text → Text
sanitize_redirect_path path =
    if is_empty path || not (starts_with_slash path) || double_slash path || any is_unsafe_char path
    then slash
    else path

-- strings.Cut(s, "#"), of which the first part is kept
unfoldable pub before_fragment : Text → Text
before_fragment [] = []
before_fragment (c ∷ s) = let rest = before_fragment s in if c == b'#' then [] else c ∷ rest

-- The cookie of the flow, and the query of the callback.
pub record FlowValues : Type 0 where
  pub flow : OidcFlow
  pub redirect : Text

pub record CallbackQuery : Type 0 where
  pub error : Text
  pub state : Text
  pub code : Text

-- Where a response redirects to: to the login page with a short code, or to a page of the app with
-- the token in the fragment.
pub data LoginCode : Type 0 where
  denied expired sign_in_failed : LoginCode

pub data Redirect : Type 0 where
  to_login : LoginCode → Redirect
  to_app : Text → Text → Redirect

-- The start of a sign-in: the cookie that it sets, if the random source gives a flow.
unfoldable pub handle_oidc_login : Option OidcFlow → Text → Option FlowValues
handle_oidc_login none redirect = none
handle_oidc_login (some flow) redirect =
    some (record { flow = flow; redirect = sanitize_redirect_path redirect })

module _ {T S G M : Type 0} (users : Table T User) (sessions : Table S Session)
    (groups : Table G Group) (memberships : Table M UserGroup) (by_name : List Group → List Group)
    (crypto : Crypto) (provider : OidcProvider) where
  -- The answer to the sign-in, and the user whose sign-in the audit log records.
  abbrev oidc_signed_in :
      FlowValues
      → Result AuthError (Text × User × Time) × Directory T S G M
      → (Redirect × Option User) × Directory T S G M
  oidc_signed_in v (err e, d) = ((to_login sign_in_failed, none), d)
  oidc_signed_in v (ok (token, user, expires), d) =
      ((to_app (before_fragment (sanitize_redirect_path v.redirect)) token, some user), d)

  abbrev oidc_exchanged :
      Directory T S G M
      → FlowValues
      → (ℕ → Option (ℕ × ℕ × ℕ))
      → Option Text
      → ℕ
      → Time
      → Result OidcError OidcIdentity
      → (Redirect × Option User) × Directory T S G M
  oidc_exchanged d v bytes session_id session_ttl now (err e) = ((to_login sign_in_failed, none), d)
  oidc_exchanged d v bytes session_id session_ttl now (ok id) = oidc_signed_in v (
      login_oidc users sessions groups memberships by_name crypto d id bytes session_id session_ttl
        now)

  abbrev oidc_continued :
      Directory T S G M
      → CallbackQuery
      → (ℕ → Option (ℕ × ℕ × ℕ))
      → Option Text
      → ℕ
      → Time
      → Option FlowValues
      → (Redirect × Option User) × Directory T S G M
  oidc_continued d q bytes session_id session_ttl now none = ((to_login expired, none), d)
  oidc_continued d q bytes session_id session_ttl now (some v) =
      oidc_exchanged d v bytes session_id session_ttl now (exchange provider v.flow q.state q.code)

  -- handleOIDCCallback, which deletes the cookie in any case
  unfoldable pub handle_oidc_callback :
      Directory T S G M
      → Option FlowValues
      → CallbackQuery
      → (ℕ → Option (ℕ × ℕ × ℕ))
      → Option Text
      → ℕ
      → Time
      → (Redirect × Option User) × Directory T S G M
  handle_oidc_callback d cookie q bytes session_id session_ttl now =
      if not (is_empty q.error)
      then ((to_login denied, none), d)
      else oidc_continued d q bytes session_id session_ttl now cookie
