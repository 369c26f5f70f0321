-- ===== src/Auth/Middleware.antt =====
-- internal/auth/middleware.go and Service.UserForToken: the account that a request acts as. A header
-- is the list of its values, of which the first counts where one is read; the texts and headers of
-- the refusals are left out.
pub mod Accepted
use unit_management.Base.{
  ℕ, Bool, true, false, not, ◌&&◌, Option, none, some, List, [], ◌∷◌, ◌++◌, ◌==◌, if◌then◌else◌,
  map, Result, ok, err,
}
use unit_management.Text.{Text, text_eq, equal_fold, trim_space, split, is_empty}
use unit_management.Database.{Table}
use unit_management.Models.{Time, User, Session, Group, UserGroup, ApiKey}
use unit_management.Auth.{AuthError, Crypto}
use unit_management.Auth.Sessions.{user_for_session}
use unit_management.Auth.AccessTokens.{
  AccessTokens, Readings, State, Handled, user_for_access_token,
}
use unit_management.Auth.ApiKeys.{Jwt, user_for_api_key}

abbrev pub bearer : Text
bearer = b'b' ∷ b'e' ∷ b'a' ∷ b'r' ∷ b'e' ∷ b'r' ∷ []

abbrev websocket : Text
websocket = b'w' ∷ b'e' ∷ b'b' ∷ b's' ∷ b'o' ∷ b'c' ∷ b'k' ∷ b'e' ∷ b't' ∷ []

pub record Headers : Type 0 where
  pub authorization : Text
  pub upgrade : Text
  pub protocols : List Text

-- strings.Cut(s, " ")
unfoldable pub cut_space : Text → Option (Text × Text)
cut_space [] = none
cut_space (c ∷ s) =
    let rest = cut_space s in
    if c == b' ' then some ([], s) else elim rest [ none ↦ none | some p ↦ some (c ∷ p.0, p.1) ]

abbrev bearer_token : Option (Text × Text) → Option Text
bearer_token none = none
bearer_token (some (scheme, token)) =
    if equal_fold scheme bearer then some (trim_space token) else none

unfoldable pub offered : List Text → List Text
offered [] = []
offered (v ∷ values) = map trim_space (split b',' v) ++ offered values

abbrev protocol_token : List Text → Text
protocol_token (p ∷ token ∷ []) = if text_eq p bearer then token else []
protocol_token protocols = []

abbrev or_protocol : Headers → Option Text → Text
or_protocol h (some token) = token
or_protocol h none =
    if equal_fold h.upgrade websocket then protocol_token (offered h.protocols) else []

-- TokenFromRequest
unfoldable pub token_from_request : Headers → Text
token_from_request h = or_protocol h (bearer_token (cut_space h.authorization))

-- The tables and the cache that a token is looked up in.
pub record Stores (T S G M A : Type 0) : Type 0 where
  pub state : State T S G M
  pub keys : A

module _ {T S G M A K : Type 0} (users : Table T User) (sessions : Table S Session)
    (groups : Table G Group) (memberships : Table M UserGroup) (api_keys : Table A ApiKey)
    (by_name : List Group → List Group) (crypto : Crypto) (jwt : Jwt K)
    (access_tokens : Option AccessTokens) where
  unfoldable pub by_session :
      Stores T S G M A → Text → Time → Handled × A → Result AuthError User × Stores T S G M A
  by_session s token now (some r, keys) = (r, record s { keys = keys })
  by_session s token now (none, keys) =
      (user_for_session users sessions crypto s.state.directory.tables token now, s)

  unfoldable pub by_api_key :
      Stores T S G M A
      → Text
      → Readings
      → Time
      → Handled × State T S G M
      → Result AuthError User × Stores T S G M A
  by_api_key s token clock now (some r, state) = (r, record s { state = state })
  by_api_key s token clock now (none, state) = by_session s token now (
      user_for_api_key users sessions api_keys jwt s.state.directory.tables s.keys token
        clock.verified_at clock.stored_at)

  -- Service.UserForToken
  unfoldable pub user_for_token :
      Stores T S G M A
      → Text
      → Readings
      → (ℕ → Option (ℕ × ℕ × ℕ))
      → Time
      → Result AuthError User × Stores T S G M A
  user_for_token s token clock bytes now = by_api_key s token clock now (
      user_for_access_token users groups memberships by_name access_tokens s.state token clock
        bytes)

  abbrev authorized : Result AuthError User × Stores T S G M A → Option User × Stores T S G M A
  authorized (ok user, s) = (some user, s)
  authorized (err e, s) = (none, s)

  -- RequireAuth: the user that the request acts as; none for one that is refused with 401.
  unfoldable pub require_auth :
      Stores T S G M A
      → Headers
      → Readings
      → (ℕ → Option (ℕ × ℕ × ℕ))
      → Time
      → Option User × Stores T S G M A
  require_auth s headers clock bytes now =
      let token = token_from_request headers in
      if is_empty token then (none, s) else authorized (user_for_token s token clock bytes now)

-- RequireAdmin: whether the request passes; it is refused with 403 otherwise.
unfoldable pub require_admin : Option User → Bool
require_admin none = false
require_admin (some user) = user.is_admin
