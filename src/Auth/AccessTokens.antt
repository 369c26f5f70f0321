-- ===== src/Auth/AccessTokens.antt =====
-- internal/auth/access_token.go: access tokens of trusted OpenID Connect providers, and the cache of
-- the accounts that they stand for. The JWT parser, the providers' verifiers and the hash of a token
-- are arguments; the readings of the clock are too.
pub mod Cache
pub mod Accounts
pub mod Vouched
use unit_management.Base.{
  ℕ, ◌+◌, Bool, true, false, not, ◌&&◌, ◌||◌, Option, none, some, List, [], ◌∷◌, ltb, leb,
  if◌then◌else◌, any, is_some, length, Result, ok, err, ◌>>=◌, or_err,
}
use unit_management.Base.Assoc.{Assoc, lookup, assign}
use unit_management.Text.{Text, text_eq, is_empty}
use unit_management.Database.{Answer, done, duplicate, failed, Table, first}
use unit_management.Models.{Time, minute, User, Session, Group, UserGroup}
use unit_management.Auth.{AuthError, invalid_session, internal, Tables, wrap, user_by_id}
use unit_management.Auth.Oidc.{OidcIdentity, OidcError, RawGroups, parse_groups}
use unit_management.Auth.Groups.{Directory, sync_oidc_groups}
use unit_management.Auth.Provisioning.{finished, user_for_oidc_identity}

abbrev pub access_token_cache_ttl : ℕ
access_token_cache_ttl = minute

abbrev pub access_token_cache_prune_size : ℕ
access_token_cache_prune_size = 1024

-- cachedAccessToken
pub record CachedAccessToken : Type 0 where
  pub user_id : ℕ
  pub expires : Time

abbrev pub TokenCache : Type 0
TokenCache = Assoc CachedAccessToken

-- OIDCAccessTokens.cached
unfoldable pub fresh : Time → Option CachedAccessToken → Option ℕ
fresh now none = none
fresh now (some e) = if ltb e.expires now then none else some e.user_id

unfoldable pub cached : TokenCache → ℕ → Time → Option ℕ
cached cache key now = fresh now (lookup key cache)

-- The sweep over the entries that have expired.
unfoldable pub prune : Time → TokenCache → TokenCache
prune now [] = []
prune now ((key, e) ∷ cache) =
    let rest = prune now cache in if ltb e.expires now then rest else (key, e) ∷ rest

-- Only a large cache is swept.
unfoldable pub swept : Time → TokenCache → TokenCache
swept now cache =
    if leb access_token_cache_prune_size (length cache) then prune now cache else cache

unfoldable pub earlier : Time → Time → Time
earlier a b = if ltb a b then a else b

-- OIDCAccessTokens.store, with the two readings of its clock
unfoldable pub store : TokenCache → ℕ → ℕ → Time → Time → Time → TokenCache
store cache key user_id token_expiry now later =
    let expires : Time = earlier token_expiry (now + access_token_cache_ttl) in
    assign key (record { user_id = user_id; expires = expires }) (swept later cache)

-- A verified access token; the claims are none where they do not decode, and else the preferred
-- username, the email address, the type and the groups claim.
pub record AccessToken : Type 0 where
  pub issuer : Text
  pub subject : Text
  pub audience : List Text
  pub nonce : Text
  pub expiry : Time
  pub claims : Option ((Text × Text × Text) × Option RawGroups)

-- OIDCAccessTokens without its cache: the issuer that a JWT names, without its verification, the
-- verifier of each trusted issuer, which reads the clock, and the hash of a token.
pub record AccessTokens : Type 0 where
  pub issuer_of : Text → Option Text
  pub verifiers : Text → Option (Time → Text → Option AccessToken)
  pub audiences : List Text
  pub admin_group : Text
  pub digest : Text → ℕ

unfoldable pub verifier_of : AccessTokens → Option Text → Option (Time → Text → Option AccessToken)
verifier_of a none = none
verifier_of a (some issuer) = a.verifiers issuer

-- OIDCAccessTokens.verifierFor
unfoldable pub verifier_for : AccessTokens → Text → Option (Time → Text → Option AccessToken)
verifier_for a raw = verifier_of a (a.issuer_of raw)

unfoldable pub access_identity :
    AccessToken → Text × Text × Text → List Text → Option Bool → OidcIdentity
access_identity token (username, email, typ) groups is_admin = record {
  issuer = token.issuer;
  subject = token.subject;
  preferred_username = username;
  email = email;
  groups = groups;
  is_admin = is_admin;
}

-- What verify answers: the identity, the expiry, and whether the token carries the groups claim.
pub record Verified : Type 0 where
  pub identity : OidcIdentity
  pub expiry : Time
  pub has_groups : Bool

unfoldable pub grouped :
    AccessTokens → AccessToken → Text × Text × Text → Result OidcError (List Text) → Option Verified
grouped a token claims (err e) = none
grouped a token claims (ok groups) = some (record {
  identity =
      access_identity token claims groups
        (if is_empty a.admin_group then none else some (any (text_eq a.admin_group) groups));
  expiry = token.expiry;
  has_groups = true;
})

unfoldable pub with_claims :
    AccessTokens → AccessToken → Option ((Text × Text × Text) × Option RawGroups) → Option Verified
with_claims a token none = none
with_claims a token (some ((username, email, typ), claim)) =
    if text_eq typ (b'I' ∷ b'D' ∷ []) || not (is_empty token.nonce) then none else elim claim [
      | some raw ↦ grouped a token (username, email, typ) (parse_groups raw)
      | none ↦ some (record {
        identity = access_identity token (username, email, typ) [] none;
        expiry = token.expiry;
        has_groups = false;
      })
    ]

unfoldable pub accepted_audience : AccessTokens → AccessToken → Bool
accepted_audience a token = any (λ aud. any (text_eq aud) a.audiences) token.audience

unfoldable pub checked_token : AccessTokens → Option AccessToken → Option Verified
checked_token a none = none
checked_token a (some token) =
    if accepted_audience a token then with_claims a token token.claims else none

-- OIDCAccessTokens.verify; the caller does not tell its errors apart.
unfoldable pub verify :
    AccessTokens → (Time → Text → Option AccessToken) → Time → Text → Option Verified
verify a verifier now raw = checked_token a (verifier now raw)

-- The readings of the clock in one call, in their order.
pub record Readings : Type 0 where
  pub cached_at : Time
  pub verified_at : Time
  pub stored_at : Time
  pub pruned_at : Time

pub record State (T S G M : Type 0) : Type 0 where
  pub directory : Directory T S G M
  pub cache : TokenCache

-- An answer of a path that may leave a token to the next one: none for one that it does not handle.
abbrev pub Handled : Type 0
Handled = Option (Result AuthError User)

abbrev pub found_user : Answer (Option User) → Result AuthError User
found_user (done (some user)) = ok user
found_user (done none) = err invalid_session
found_user duplicate = err internal
found_user failed = err internal

module _ {T S G M : Type 0} (users : Table T User) (groups : Table G Group)
    (memberships : Table M UserGroup) (by_name : List Group → List Group) where
  -- The account of a cached token, read anew.
  unfoldable pub cached_account : State T S G M → ℕ → Handled × State T S G M
  cached_account s user_id =
      (some (found_user (first users s.directory.tables.users (user_by_id user_id))), s)

  unfoldable pub remembered :
      State T S G M → ℕ → Time → Readings → Directory T S G M → User → Handled × State T S G M
  remembered s key expiry clock d user = (
    some (ok user),
    record {
      directory = d;
      cache = store s.cache key user.id expiry clock.stored_at clock.pruned_at;
    },
  )

  unfoldable pub synced_account :
      State T S G M
      → ℕ
      → Time
      → Readings
      → Directory T S G M
      → Result AuthError ((User × List Group) × Directory T S G M)
      → Handled × State T S G M
  synced_account s key expiry clock d (err e) = (some (err e), record s { directory = d })
  synced_account s key expiry clock d (ok ((user, joined), d')) =
      remembered s key expiry clock d' user

  unfoldable pub resolved :
      State T S G M
      → ℕ
      → Readings
      → Verified
      → Result AuthError (User × Tables T S)
      → Handled × State T S G M
  resolved s key clock v (err e) = (some (err e), s)
  resolved s key clock v (ok (user, t)) =
      let d : Directory T S G M = record s.directory { tables = t } in
      elim v.has_groups [
        | true ↦
            synced_account s key v.expiry clock d
              (sync_oidc_groups users groups memberships by_name d user v.identity)
        | false ↦ remembered s key v.expiry clock d user
      ]

  unfoldable pub verified_account :
      State T S G M
      → ℕ
      → Readings
      → (ℕ → Option (ℕ × ℕ × ℕ))
      → Option Verified
      → Handled × State T S G M
  verified_account s key clock bytes none = (some (err invalid_session), s)
  verified_account s key clock bytes (some v) =
      resolved s key clock v
        (finished (user_for_oidc_identity users s.directory.tables v.identity bytes))

  unfoldable pub by_verifier :
      AccessTokens
      → State T S G M
      → Text
      → Readings
      → (ℕ → Option (ℕ × ℕ × ℕ))
      → Option (Time → Text → Option AccessToken)
      → Handled × State T S G M
  by_verifier a s raw clock bytes none = (none, s)
  by_verifier a s raw clock bytes (some verifier) =
      elim (cached s.cache (a.digest raw) clock.cached_at) [
        | some user_id ↦ cached_account s user_id
        | none ↦
            verified_account s (a.digest raw) clock bytes (verify a verifier clock.verified_at raw)
      ]

  -- Service.userForAccessToken; none for `a` where the service has no access tokens.
  unfoldable pub user_for_access_token :
      Option AccessTokens
      → State T S G M
      → Text
      → Readings
      → (ℕ → Option (ℕ × ℕ × ℕ))
      → Handled × State T S G M
  user_for_access_token none s raw clock bytes = (none, s)
  user_for_access_token (some a) s raw clock bytes =
      by_verifier a s raw clock bytes (verifier_for a raw)
