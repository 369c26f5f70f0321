-- ===== src/Examples/Tokens.antt =====
-- The tokens of an API key and of a provider, in memory.
use unit_management.Base.{
  ℕ, ◌+◌, ◌*◌, ◌≤◌, ◌≡◌, refl, Bool, true, false, ◌&&◌, Option, none, some, List, [], ◌∷◌, arith,
  ok, leb,
}
use unit_management.Text.{text_eq, trim_space}
use unit_management.Database.{Table, IsTable, first}
use unit_management.Database.Memory.{memory, memory-IsTable}
use unit_management.Models.{Time, minute, User, Session, Group, UserGroup, ApiKey}
use unit_management.Auth.{get_user}
use unit_management.Auth.Users.{normalize_username}
use unit_management.Auth.AccessTokens.{
  AccessTokens, AccessToken, Readings, user_for_access_token, by_verifier, verifier_for,
  verifier_of, cached, fresh, verified_account, resolved, remembered, verify, checked_token,
  accepted_audience, with_claims, access_identity, store, swept, earlier,
}
use unit_management.Auth.Provisioning.{
  user_for_oidc_identity, account_or_new, find_account, provision, inserted, new_account,
  provisioned_username, first_username, or_truncated,
}
use unit_management.Auth.ApiKeys.{
  Jwt, user_for_api_key, checked_key, parse_api_key_public_key, strong_key, lifetime_ok,
}
use unit_management.Auth.ApiKeys.Window.{KeptKey, IsJwt, Signed, user_for_api_key-Signed}
use unit_management.Auth.Middleware.{Stores, user_for_token, by_api_key}
use unit_management.Auth.Middleware.Accepted.{IsGrounded, user_for_token-IsGrounded}
use unit_management.Examples.Accounts.{
  user_table, user_table-IsTable, session_table, session_table-IsTable, toy, alice,
}
use unit_management.Examples.Sso.{group_table, member_table, by_name}

abbrev key_table : Table (List ApiKey) ApiKey
key_table = memory (λ s r. r) (λ rows. false)

key_table-IsTable : IsTable KeptKey key_table
key_table-IsTable = memory-IsTable KeptKey (λ s r. r) (λ rows. false) (λ s r. refl)

-- Every token names the key 5, and was issued at 3 minutes for a minute.
abbrev not_before : Option Time → Time → Bool
not_before none t = true
not_before (some i) t = leb i t

abbrev not_after : Option Time → Time → Time → Bool
not_after none now leeway = true
not_after (some e) now leeway = leb now (e + leeway)

abbrev jwt : Jwt ℕ
jwt = record {
  key_ids = λ raw. some ((b'5' ∷ []) ∷ []);
  parse_uuid = λ s. some 5;
  rsa_key = λ pem. some (8, 2048);
  claims = λ key raw. some (record { issued_at = some (3 * minute); expiry = some (4 * minute) });
  validate = λ c now leeway. not_before c.issued_at (now + leeway) && not_after c.expiry now leeway;
}

jwt-IsJwt : IsJwt jwt
jwt-IsJwt = record {
  issued = λ c now leeway i h e. issued c.issued_at c.expiry now leeway i h e;
  expires = λ c now leeway t h e. expires c.issued_at c.expiry now leeway t h e;
}
  where
    issued :
        (a b : Option Time) (now leeway i : ℕ)
        → (not_before a (now + leeway) && not_after b now leeway) ≡ true
        → a ≡ some i
        → i ≤ now + leeway
    issued none b now leeway i h e = absurd (cc)
    issued (some j) b now leeway i h e = let same : j ≡ i = ground arith in ground arith

    expires :
        (a b : Option Time) (now leeway t : ℕ)
        → (not_before a (now + leeway) && not_after b now leeway) ≡ true
        → b ≡ some t
        → now ≤ t + leeway
    expires a none now leeway t h e = absurd (cc)
    expires a (some j) now leeway t h e = let same : j ≡ t = ground arith in ground arith

abbrev api_keys : List ApiKey
api_keys =
    record {
      id = 5;
      user_id = 1;
      name = b'k' ∷ [];
      public_key_pem = b'p' ∷ [];
      last_used_at = none;
    }
    ∷ []

accepted_key :
    (user_for_api_key user_table session_table key_table jwt
      (record { users = alice ∷ []; sessions = [] })
      api_keys
      (b't' ∷ [])
      (4 * minute)
      (4 * minute)).0
    ≡ some (ok alice)
unfolding user_for_api_key checked_key first parse_api_key_public_key strong_key lifetime_ok
    get_user
accepted_key = refl

user_for_api_key-Signed_example :
    Signed user_table session_table key_table jwt
      (record { users = alice ∷ []; sessions = [] })
      api_keys
      (b't' ∷ [])
      (4 * minute)
      alice
user_for_api_key-Signed_example =
    user_for_api_key-Signed user_table session_table key_table jwt user_table-IsTable
      key_table-IsTable jwt-IsJwt (record { users = alice ∷ []; sessions = [] }) api_keys
      (b't' ∷ []) (4 * minute) (4 * minute) alice accepted_key

-- An access token of a provider, of which the account of the subject is made at its first use.
abbrev access_token : AccessToken
access_token = record {
  issuer = b'i' ∷ [];
  subject = b's' ∷ [];
  audience = (b'x' ∷ []) ∷ (b'u' ∷ []) ∷ [];
  nonce = [];
  expiry = 9 * minute;
  claims = some ((b'n' ∷ [], [], b'B' ∷ []), none);
}

abbrev trust : AccessTokens
trust = record {
  issuer_of = λ raw. some (b'i' ∷ []);
  verifiers = λ issuer. some (λ now raw. some access_token);
  audiences = (b'u' ∷ []) ∷ [];
  admin_group = [];
  digest = λ raw. 6;
}

abbrev clock : Readings
clock = record { cached_at = 1; verified_at = 2; stored_at = 3; pruned_at = 4 }

abbrev at_first : Stores (List User) (List Session) (List Group) (List UserGroup) (List ApiKey)
at_first = record {
  state = record {
    directory = record {
      tables = record { users = alice ∷ []; sessions = [] };
      groups = [];
      memberships = [];
    };
    cache = [];
  };
  keys = [];
}

abbrev newcomer : User
newcomer = record {
  id = 2;
  username = b'n' ∷ [];
  password_hash = [];
  is_admin = false;
  oidc_issuer = some (b'i' ∷ []);
  oidc_subject = some (b's' ∷ []);
}

abbrev afterwards : Stores (List User) (List Session) (List Group) (List UserGroup) (List ApiKey)
afterwards = record {
  state = record {
    directory = record {
      tables = record { users = alice ∷ newcomer ∷ []; sessions = [] };
      groups = [];
      memberships = [];
    };
    cache = (6, record { user_id = 2; expires = 3 + minute }) ∷ [];
  };
  keys = [];
}

admitted :
    user_for_token user_table session_table group_table member_table key_table by_name toy jwt
      (some trust)
      at_first
      (b't' ∷ [])
      clock
      (λ attempt. none)
      5
    ≡ (ok newcomer, afterwards)
unfolding user_for_token by_api_key user_for_access_token by_verifier verifier_for verifier_of
    cached fresh verified_account resolved remembered verify checked_token accepted_audience
    with_claims access_identity store swept earlier user_for_oidc_identity account_or_new
    find_account first provision inserted new_account provisioned_username first_username
    or_truncated text_eq normalize_username trim_space
admitted = refl

user_for_token-IsGrounded_example :
    IsGrounded user_table session_table group_table member_table key_table by_name toy jwt
      (some trust)
      user_table-IsTable
      session_table-IsTable
      key_table-IsTable
      jwt-IsJwt
      at_first
      (b't' ∷ [])
      clock
      5
      newcomer
      afterwards
user_for_token-IsGrounded_example =
    user_for_token-IsGrounded user_table session_table group_table member_table key_table by_name
      toy jwt (some trust) user_table-IsTable session_table-IsTable key_table-IsTable jwt-IsJwt
      at_first (b't' ∷ []) clock (λ attempt. none) 5 newcomer afterwards admitted
