-- ===== src/Auth/Provisioning.antt =====
-- internal/auth/oidc.go: the account of an identity, which is created at the first sign-in, and the
-- sign-in itself. The random bytes of each attempt are an argument, none where the source fails.
pub mod Usernames
pub mod Attempts
use unit_management.Base.{
  ℕ, zero, suc, ◌+◌, ◌-◌, ◌/◌, ◌%◌, Bool, true, false, Option, none, some, List, [], ◌∷◌, ◌++◌,
  ◌==◌, ltb, leb, if◌then◌else◌, take, Result, ok, err, ◌>>=◌, or_err,
}
use unit_management.Text.{Text, text_eq, rune_count, byte_len}
use unit_management.Database.{Answer, done, duplicate, failed, Table, first}
use unit_management.Models.{Time, User, Session, Group, UserGroup}
use unit_management.Auth.{AuthError, internal, Tables, Crypto, wrap}
use unit_management.Auth.Users.{max_username_length, normalize_username}
use unit_management.Auth.Sessions.{NewSession, create_session}
use unit_management.Auth.Oidc.{OidcIdentity}
use unit_management.Auth.Groups.{Directory, sync_oidc_groups}

unfoldable pub truncate_runes : Text → ℕ → Text
truncate_runes s n = if leb (rune_count s) n then s else take n s

-- The first candidate that is a username.
unfoldable pub first_username : List Text → Option Text
first_username [] = none
first_username (v ∷ vs) = elim (normalize_username v) [
  | ok name ↦ some name
  | err e ↦ first_username vs
]

unfoldable pub or_truncated : OidcIdentity → Option Text → Text
or_truncated id (some name) = name
or_truncated id none = truncate_runes id.subject max_username_length

-- provisionedUsername
unfoldable pub provisioned_username : OidcIdentity → Text
provisioned_username id =
    or_truncated id (first_username (id.preferred_username ∷ id.email ∷ id.subject ∷ []))

abbrev hex_digit : ℕ → ℕ
hex_digit n = if ltb n 10 then b'0' + n else b'a' + (n - 10)

-- hex.EncodeToString
unfoldable pub hex : List ℕ → Text
hex [] = []
hex (b ∷ bs) = hex_digit (b / 16) ∷ hex_digit (b % 16) ∷ hex bs

-- randomSuffix, of the three bytes that the random source gives
unfoldable pub random_suffix : Option (ℕ × ℕ × ℕ) → Result AuthError Text
random_suffix none = err internal
random_suffix (some (a, b, c)) = ok (hex (a ∷ b ∷ c ∷ []))

unfoldable pub with_suffix : OidcIdentity → Text → Text
with_suffix id suffix =
    truncate_runes (provisioned_username id) (max_username_length - byte_len suffix - 1)
    ++ b'-' ∷ suffix

abbrev pub is_subject : Text → User → Bool
is_subject subject u = elim u.oidc_subject [ none ↦ false | some s ↦ text_eq s subject ]

unfoldable pub new_account : OidcIdentity → Text → User
new_account id username = record {
  id = 0;
  username = username;
  password_hash = [];
  is_admin = false;
  oidc_issuer = some id.issuer;
  oidc_subject = some id.subject;
}

abbrev pub Provisioned : Type 0 → Type 0 → Type 0
Provisioned T S = Result AuthError (User × Tables T S)

unfoldable pub next_name : OidcIdentity → Option (ℕ × ℕ × ℕ) → Result AuthError Text
next_name id bytes = do suffix ← random_suffix bytes; ok (with_suffix id suffix)

unfoldable pub renamed :
    {A : Type 0}
    → Result AuthError Text
    → (Text → Option (Result AuthError A))
    → Option (Result AuthError A)
renamed (err e) again = some (err e)
renamed (ok name) again = again name

module _ {T S : Type 0} (users : Table T User) where
  -- The inner function `find`: the oldest account of the subject
  unfoldable pub find_account : Tables T S → Text → Answer (Option User)
  find_account t subject = first users t.users (is_subject subject)

  unfoldable pub retried :
      Tables T S
      → OidcIdentity
      → Option (ℕ × ℕ × ℕ)
      → Answer (Option User)
      → (Text → Option (Provisioned T S))
      → Option (Provisioned T S)
  retried t id bytes (done (some existing)) again = some (ok (existing, t))
  retried t id bytes (done none) again = renamed (next_name id bytes) again
  retried t id bytes duplicate again = renamed (next_name id bytes) again
  retried t id bytes failed again = renamed (next_name id bytes) again

  unfoldable pub inserted :
      ℕ
      → Tables T S
      → OidcIdentity
      → Option (ℕ × ℕ × ℕ)
      → Answer (T × User)
      → (Text → Option (Provisioned T S))
      → Option (Provisioned T S)
  inserted attempt t id bytes (done (s, user)) again = some (ok (user, record t { users = s }))
  inserted attempt t id bytes failed again = some (err internal)
  inserted attempt t id bytes duplicate again =
      if attempt == 2
      then some (err internal)
      else retried t id bytes (find_account t id.subject) again

  -- The loop over the attempts, on fuel; none if the fuel does not last.
  unfoldable pub provision :
      ℕ → ℕ → Tables T S → OidcIdentity → (ℕ → Option (ℕ × ℕ × ℕ)) → Text → Option (Provisioned T S)
  provision zero attempt t id bytes username = none
  provision (suc fuel) attempt t id bytes username =
      inserted attempt t id (bytes attempt) (users.insert t.users (new_account id username))
        (λ name. provision fuel (suc attempt) t id bytes name)

  unfoldable pub account_or_new :
      Tables T S
      → OidcIdentity
      → (ℕ → Option (ℕ × ℕ × ℕ))
      → Answer (Option User)
      → Option (Provisioned T S)
  account_or_new t id bytes (done (some user)) = some (ok (user, t))
  account_or_new t id bytes (done none) = provision 3 0 t id bytes (provisioned_username id)
  account_or_new t id bytes duplicate = some (err internal)
  account_or_new t id bytes failed = some (err internal)

  -- Service.userForOIDCIdentity
  unfoldable pub user_for_oidc_identity :
      Tables T S → OidcIdentity → (ℕ → Option (ℕ × ℕ × ℕ)) → Option (Provisioned T S)
  user_for_oidc_identity t id bytes = account_or_new t id bytes (find_account t id.subject)

-- The result of a loop whose fuel lasts.
abbrev pub finished : {A : Type 0} → Option (Result AuthError A) → Result AuthError A
finished none = err internal
finished (some r) = r

module _ {T S G M : Type 0} (users : Table T User) (sessions : Table S Session)
    (groups : Table G Group) (memberships : Table M UserGroup) (by_name : List Group → List Group)
    (crypto : Crypto) where
  unfoldable pub with_session :
      Directory T S G M
      → User
      → Result AuthError (NewSession × Tables T S)
      → Result AuthError (Text × User × Time) × Directory T S G M
  with_session d user (err e) = (err e, d)
  with_session d user (ok (created, t)) =
      (ok (created.token, user, created.session.expires_at), record d { tables = t })

  unfoldable pub with_groups :
      Directory T S G M
      → Option Text
      → ℕ
      → Time
      → Result AuthError ((User × List Group) × Directory T S G M)
      → Result AuthError (Text × User × Time) × Directory T S G M
  with_groups d session_id session_ttl now (err e) = (err e, d)
  with_groups d session_id session_ttl now (ok ((user, joined), d')) =
      with_session d' user
        (create_session users sessions crypto d'.tables session_id user.id false [] session_ttl now)

  unfoldable pub with_account :
      Directory T S G M
      → OidcIdentity
      → Option Text
      → ℕ
      → Time
      → Result AuthError (User × Tables T S)
      → Result AuthError (Text × User × Time) × Directory T S G M
  with_account d id session_id session_ttl now (err e) = (err e, d)
  with_account d id session_id session_ttl now (ok (user, t)) =
      let d' : Directory T S G M = record d { tables = t } in
      with_groups d' session_id session_ttl now
        (sync_oidc_groups users groups memberships by_name d' user id)

  -- Service.LoginOIDC; a new account stays where a later step fails.
  unfoldable pub login_oidc :
      Directory T S G M
      → OidcIdentity
      → (ℕ → Option (ℕ × ℕ × ℕ))
      → Option Text
      → ℕ
      → Time
      → Result AuthError (Text × User × Time) × Directory T S G M
  login_oidc d id bytes session_id session_ttl now =
      with_account d id session_id session_ttl now
        (finished (user_for_oidc_identity users d.tables id bytes))
