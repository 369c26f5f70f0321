-- ===== src/Auth/Middleware/Accepted.antt =====
-- Whatever path accepts a token, the account is a stored one, and the path vouches for it.
use unit_management.Base.{ℕ, ◌≡◌, ap, Option, none, some, List, Result, ok}
use mathlib.Core.Path.{subst}
use unit_management.Base.Among.{Among, Among-find?}
use unit_management.Text.{Text}
use unit_management.Database.{Table, IsTable}
use unit_management.Models.{Time, User, Session, Group, UserGroup, ApiKey}
use unit_management.Auth.{AuthError, Crypto, user_by_id}
use unit_management.Auth.Lookup.{KeptUser, KeptSession, Accepted, user_for_session-Accepted}
use unit_management.Auth.AccessTokens.{
  AccessTokens, Readings, State, Handled, user_for_access_token,
}
use unit_management.Auth.AccessTokens.Accounts.{Answers}
use unit_management.Auth.AccessTokens.Vouched.{Vouched, IsVouched, user_for_access_token-IsVouched}
use unit_management.Auth.ApiKeys.{Jwt, user_for_api_key}
use unit_management.Auth.ApiKeys.Window.{KeptKey, IsJwt, Signed, user_for_api_key-Signed}
use unit_management.Auth.Middleware.{Stores, by_session, by_api_key, user_for_token}

module _ {T S G M A K : Type 0} (users : Table T User) (sessions : Table S Session)
    (groups : Table G Group) (memberships : Table M UserGroup) (api_keys : Table A ApiKey)
    (by_name : List Group → List Group) (crypto : Crypto) (jwt : Jwt K)
    (access_tokens : Option AccessTokens) (user_laws : IsTable KeptUser users)
    (session_laws : IsTable KeptSession sessions) (key_laws : IsTable KeptKey api_keys)
    (jwt_laws : IsJwt jwt) where
  -- Why a token acts as an account: what each path has found in the tables before the call.
  pub data Grounds (s : Stores T S G M A) (token : Text) (clock : Readings) (now : Time) (u : User)
      : Type 0 where
    by_access_token :
        (a : AccessTokens)
        → access_tokens ≡ some a
        → Vouched a s.state token clock u
        → Grounds s token clock now u
    by_key_token :
        Signed users sessions api_keys jwt s.state.directory.tables s.keys token clock.verified_at u
        → Grounds s token clock now u
    by_session_token :
        Accepted users sessions user_laws crypto session_laws s.state.directory.tables token now u
        → Grounds s token clock now u

  -- The account is one of those stored after the call, as it is answered, with grounds for it.
  abbrev pub IsGrounded :
      Stores T S G M A → Text → Readings → Time → User → Stores T S G M A → Type 0
  IsGrounded s token clock now u s' =
      Among (users.rows s'.state.directory.tables.users) u × Grounds s token clock now u

  by_session-IsGrounded :
      (s : Stores T S G M A) (token : Text) (clock : Readings) (now : Time) (r : Handled × A)
      (u : User) (s' : Stores T S G M A)
      → ((x : User) → r.0 ≡ some (ok x) → IsGrounded s token clock now x s)
      → by_session users sessions groups memberships api_keys by_name crypto jwt access_tokens s
          token now r
        ≡ (ok u, s')
      → IsGrounded s token clock now u s'
  unfolding by_session
  by_session-IsGrounded s token clock now (some x, keys) u s' accepted h =
      let same_r : x ≡ ok u = ap (λ (p : Result AuthError User × Stores T S G M A). p.0) h in
      let (stored, so) = accepted u (ap some same_r) in
      (
        subst
            (λ (p : Result AuthError User × Stores T S G M A).
              Among (users.rows p.1.state.directory.tables.users) u)
            h stored,
        so,
      )
  by_session-IsGrounded s token clock now (none, keys) u s' accepted h =
      let a =
        user_for_session-Accepted users sessions user_laws crypto session_laws
          s.state.directory.tables token now u
          (ap (λ (p : Result AuthError User × Stores T S G M A). p.0) h) in
      (
        subst
            (λ (p : Result AuthError User × Stores T S G M A).
              Among (users.rows p.1.state.directory.tables.users) u)
            h
            (Among-find? (user_by_id a.session.user_id) (users.rows s.state.directory.tables.users)
              a.owner),
        by_session_token a,
      )

  by_api_key-IsGrounded :
      (s : Stores T S G M A) (token : Text) (clock : Readings) (now : Time)
      (r : Handled × State T S G M) (u : User) (s' : Stores T S G M A)
      → Answers {S = S} users groups memberships by_name user_laws
          (IsVouched users groups memberships by_name user_laws access_tokens s.state token clock)
          r
          u
      → by_api_key users sessions groups memberships api_keys by_name crypto jwt access_tokens s
          token clock now r
        ≡ (ok u, s')
      → IsGrounded s token clock now u s'
  unfolding by_api_key Answers
  by_api_key-IsGrounded s token clock now (some x, state) u s' vouched h =
      let same_r : x ≡ ok u = ap (λ (p : Result AuthError User × Stores T S G M A). p.0) h in
      let (stored, a, trusted, so) = vouched (ap some same_r) in
      (
        subst
            (λ (p : Result AuthError User × Stores T S G M A).
              Among (users.rows p.1.state.directory.tables.users) u)
            h stored,
        by_access_token a trusted so,
      )
  by_api_key-IsGrounded s token clock now (none, state) u s' vouched h =
      by_session-IsGrounded s token clock now
        (user_for_api_key users sessions api_keys jwt s.state.directory.tables s.keys token
          clock.verified_at clock.stored_at)
        u s'
        (λ x accepted.
          let k =
            user_for_api_key-Signed users sessions api_keys jwt user_laws key_laws jwt_laws
              s.state.directory.tables s.keys token clock.verified_at clock.stored_at x accepted in
          (
            Among-find? (user_by_id k.key.user_id) (users.rows s.state.directory.tables.users)
                k.owner,
            by_key_token k,
          ))
        h

  -- Over lawful tables, with a check of JWT times that keeps to them, the account that a token is
  -- accepted for is, as it is answered, a row of the table of accounts that the call leaves, and
  -- one path vouches for it: a trusted verifier accepts the token with the account's subject, or
  -- the cache has the token with the account's ID and no past expiry, or a stored API key of the
  -- account verifies it, or it verifies and names a stored session of the account that has not
  -- expired.
  pub user_for_token-IsGrounded :
      (s : Stores T S G M A) (token : Text) (clock : Readings) (bytes : ℕ → Option (ℕ × ℕ × ℕ))
      (now : Time) (u : User) (s' : Stores T S G M A)
      → user_for_token users sessions groups memberships api_keys by_name crypto jwt access_tokens s
          token clock bytes now
        ≡ (ok u, s')
      → IsGrounded s token clock now u s'
  unfolding user_for_token
  user_for_token-IsGrounded s token clock bytes now u s' =
      by_api_key-IsGrounded s token clock now
        (user_for_access_token users groups memberships by_name access_tokens s.state token clock
          bytes)
        u s'
        (user_for_access_token-IsVouched users groups memberships by_name user_laws access_tokens
          s.state token clock bytes u)
