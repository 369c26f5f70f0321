-- ===== src/Auth/ApiKeys.antt =====
-- internal/auth/api_keys.go: the public keys of other programs, and the tokens that they sign with
-- their private ones. The parsers of JWTs, UUIDs and PEM and the checks of the signature and of the
-- times are arguments.
pub mod Window
use unit_management.Base.{
  ℕ, ◌+◌, ◌-◌, ◌*◌, Bool, true, false, not, ◌&&◌, ◌||◌, Option, none, some, List, [], ◌∷◌, ◌++◌,
  ◌==◌, ltb, if◌then◌else◌, Result, ok, err, ◌>>=◌, ◌>>◌, guard, or_err,
}
use unit_management.Text.{Text, is_empty, trim_space, rune_count}
use unit_management.Database.{Answer, done, duplicate, failed, Table, first}
use unit_management.Models.{Uuid, Time, minute, hour, User, Session, ApiKey}
use unit_management.Auth.{
  AuthError, invalid_session, internal, user_not_found, Tables, wrap, get_user,
}

abbrev pub min_api_key_bits : ℕ
min_api_key_bits = 2048

abbrev pub max_api_key_name_length : ℕ
max_api_key_name_length = 64

abbrev pub max_api_key_token_lifetime : ℕ
max_api_key_token_lifetime = hour

abbrev pub api_key_clock_skew : ℕ
api_key_clock_skew = minute

abbrev pub api_key_last_used_interval : ℕ
api_key_last_used_interval = minute

-- The errors of the operations on API keys, which wrap those of the accounts.
pub data ApiKeyError : Type 0 where
  api_key_not_found api_key_exists invalid_api_key_name invalid_api_key_id : ApiKeyError
  invalid_api_key_public : ApiKeyError
  of_account : AuthError → ApiKeyError

-- jwt.Claims, as far as they are read
pub record Claims : Type 0 where
  pub issued_at : Option Time
  pub expiry : Option Time

-- The libraries: the key IDs in the headers of a token that parses as an RS256 JWT; the UUID that a
-- text writes; the RSA public key that a PEM text has, with the bits of its modulus; the claims of a
-- token whose signature a key verifies; and ValidateWithLeeway at a time.
pub record Jwt (K : Type 0) : Type 0 where
  pub key_ids : Text → Option (List Text)
  pub parse_uuid : Text → Option Uuid
  pub rsa_key : Text → Option (K × ℕ)
  pub claims : K → Text → Option Claims
  pub validate : Claims → Time → ℕ → Bool

abbrev pub nil_uuid : Uuid
nil_uuid = 0

abbrev pub newline : ℕ
newline = 10

-- parseAPIKeyPublicKey
unfoldable pub strong_key : {K : Type 0} → Option (K × ℕ) → Result ApiKeyError K
strong_key none = err invalid_api_key_public
strong_key (some (key, bits)) =
    if ltb bits min_api_key_bits then err invalid_api_key_public else ok key

unfoldable pub parse_api_key_public_key : {K : Type 0} → Jwt K → Text → Result ApiKeyError K
parse_api_key_public_key jwt pem = strong_key (jwt.rsa_key pem)

abbrev pub account_error : {A : Type 0} → Result AuthError A → Result ApiKeyError A
account_error (ok a) = ok a
account_error (err e) = err (of_account e)

abbrev pub stored_key : {A : Type 0} → Answer A → Result ApiKeyError A
stored_key (done a) = ok a
stored_key duplicate = err api_key_exists
stored_key failed = err (of_account internal)

abbrev pub key_by_id : Uuid → ApiKey → Bool
key_by_id id k = k.id == id

-- Of a token, the ID of the key in its only header.
abbrev pub only_key : {K : Type 0} → Jwt K → Option (List Text) → Option Uuid
only_key jwt (some (kid ∷ [])) = jwt.parse_uuid kid
only_key jwt ids = none

-- A key that has not been used within the interval before a time.
unfoldable pub not_lately : Uuid → Time → ApiKey → Bool
not_lately id now k =
    k.id == id
    && elim k.last_used_at [ none ↦ true | some t ↦ ltb t (now - api_key_last_used_interval) ]

-- The test on the claims: both times are there, and not too far apart.
unfoldable pub lifetime_ok : Claims → Bool
lifetime_ok c = elim c.issued_at [
  | none ↦ false
  | some issued ↦ elim c.expiry [
    | none ↦ false
    | some expires ↦ not (ltb max_api_key_token_lifetime (expires - issued))
  ]
]

-- The error of a key that no longer parses is passed on as it is; the callers tell only success.
abbrev pub key_error : {B : Type 0} → Result ApiKeyError B → Result AuthError B
key_error (ok b) = ok b
key_error (err e) = err internal

module _ {T S A K : Type 0} (users : Table T User) (sessions : Table S Session)
    (api_keys : Table A ApiKey) (jwt : Jwt K) where
  -- Service.CreateAPIKey
  unfoldable pub create_api_key :
      Tables T S → A → ℕ → Uuid → Text → Text → Result ApiKeyError (ApiKey × A)
  create_api_key t keys user_id id name public_key_pem = do
    let trimmed : Text = trim_space name
    guard (not (is_empty trimmed || ltb max_api_key_name_length (rune_count trimmed)))
        invalid_api_key_name
    guard (not (id == nil_uuid)) invalid_api_key_id
    let pem : Text = trim_space public_key_pem ++ newline ∷ []
    key ← parse_api_key_public_key jwt pem
    user ← account_error (get_user users sessions t user_id)
    stored ← stored_key (
        api_keys.insert keys (record {
          id = id;
          user_id = user.id;
          name = trimmed;
          public_key_pem = pem;
          last_used_at = none;
        }))
    ok (stored.1, stored.0)

  -- Service.ListAPIKeys; `newest_first` is the database's ORDER BY created_at DESC.
  unfoldable pub list_api_keys :
      (List ApiKey → List ApiKey) → Tables T S → A → ℕ → Result ApiKeyError (List ApiKey)
  list_api_keys newest_first t keys user_id = do
    user ← account_error (get_user users sessions t user_id)
    rows ← account_error (wrap (api_keys.select keys (λ k. k.user_id == user_id)))
    ok (newest_first rows)

  abbrev pub deleted_key : List ApiKey → A → Result ApiKeyError (ApiKey × A)
  deleted_key [] keys = err api_key_not_found
  deleted_key (k ∷ gone) keys = ok (k, keys)

  -- Service.DeleteAPIKey
  unfoldable pub delete_api_key : A → ℕ → Uuid → Result ApiKeyError (ApiKey × A)
  delete_api_key keys user_id id = do
    deletion ← account_error (wrap (api_keys.delete keys (λ k. k.user_id == user_id && k.id == id)))
    deleted_key deletion.1 deletion.0

  abbrev pub after_update : A → Answer (A × ℕ) → A
  after_update keys (done (keys', n)) = keys'
  after_update keys duplicate = keys
  after_update keys failed = keys

  -- The use of a key is recorded; a failure to do so is passed over.
  unfoldable pub record_use : A → Uuid → Time → Time → A
  record_use keys id now later =
      after_update keys
        (api_keys.update keys (not_lately id now) (λ k. record k { last_used_at = some later }))

  -- The checks of a token that names the key with the ID, and the user that it acts as; the join
  -- finds the key's user, whom the foreign key guarantees.
  unfoldable pub checked_key : Tables T S → A → Uuid → Text → Time → Result AuthError User
  checked_key t keys id raw now = do
    found ← wrap (first api_keys keys (key_by_id id))
    key ← or_err found invalid_session
    public ← key_error (parse_api_key_public_key jwt key.public_key_pem)
    claims ← or_err (jwt.claims public raw) invalid_session
    guard (lifetime_ok claims) invalid_session
    guard (jwt.validate claims now api_key_clock_skew) invalid_session
    get_user users sessions t key.user_id

  abbrev pub used_key : A → Uuid → Time → Time → Result AuthError User → A
  used_key keys id now later (ok user) = record_use keys id now later
  used_key keys id now later (err e) = keys

  abbrev pub by_key :
      Tables T S → A → Text → Time → Time → Option Uuid → Option (Result AuthError User) × A
  by_key t keys raw now later none = (none, keys)
  by_key t keys raw now later (some id) =
      let r = checked_key t keys id raw now in (some r, used_key keys id now later r)

  -- Service.userForAPIKey; none for a token that it does not handle
  unfoldable pub user_for_api_key :
      Tables T S → A → Text → Time → Time → Option (Result AuthError User) × A
  user_for_api_key t keys raw now later =
      by_key t keys raw now later (only_key jwt (jwt.key_ids raw))
