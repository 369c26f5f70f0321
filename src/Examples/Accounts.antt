-- ===== src/Examples/Accounts.antt =====
-- Accounts and sessions in memory, with a toy signer.
use unit_management.Base.{
  ℕ, suc, ◌+◌, ◌*◌, ◌/◌, ◌≤◌, ◌≡◌, ◌≢◌, ◌⊎◌, refl, sym, ap, ◌∙◌, inl, inr, Bool, ◌&&◌, leb,
  Bool-cases, true, false, Option, none, some, List, [], ◌∷◌, arith, if◌then◌else◌, ok, err, length,
  any,
}
use unit_management.Text.{Text, text_eq, text_eq_refl, text_eq_iff, trim_space, byte_len}
use unit_management.Database.{Table, IsTable, first}
use unit_management.Database.Memory.{memory, memory-IsTable}
use unit_management.Models.{Time, User, Session, has_password, second, hour, zero_time}
use unit_management.Auth.{internal, Tables, TokenClaims, Jose, Crypto, get_user}
use unit_management.Auth.Signer.{
  token_issuer, sign, claims_of, numeric_date, verify, parsed_token, checked_claims, claimed,
  IsJose,
}
use unit_management.Text.Decimal.{format_uint, format_digits, parse_uint, parse_digits, within_bits}
use unit_management.Auth.Users.{
  validate_password, create_user, insert_user, normalize_username, new_user, update_user, new_hash,
  delete_user, ensure_admin, first_admin, has_admin,
}
use unit_management.Auth.Sessions.{login, create_session, session_row, user_for_session, logout}
use unit_management.Auth.Lookup.{KeptUser, KeptSession, Accepted, user_for_session-Accepted}
use unit_management.Auth.Revocation.{update_user-revokes, delete_user-revokes, logout-ends}
use unit_management.Auth.SignIn.{SignedIn, login-SignedIn, login-accepted}
use unit_management.Auth.Accounts.{NewAccount, create_user-NewAccount, ensure_admin-any}

abbrev pub user_table : Table (List User) User
user_table = memory (λ s r. record r { id = suc (length s) }) (λ rows. false)

abbrev pub session_table : Table (List Session) Session
session_table = memory (λ s r. record r { id = suc (length s) }) (λ rows. false)

pub user_table-IsTable : IsTable KeptUser user_table
user_table-IsTable =
    memory-IsTable KeptUser (λ s r. record r { id = suc (length s) }) (λ rows. false) (λ s r. refl)

pub session_table-IsTable : IsTable KeptSession session_table
session_table-IsTable =
    memory-IsTable KeptSession (λ s r. record r { id = suc (length s) }) (λ rows. false)
      (λ s r. refl)

-- A toy token for a user with an ID of one digit: its expiry, its issue, the digit, and the session.
abbrev serialize_toy : Text → Text → Text → Option ℕ → Option ℕ → Option ℕ → Option Text
serialize_toy issuer (d ∷ []) id (some issued) (some expires) none =
    if text_eq issuer token_issuer then some (expires ∷ issued ∷ d ∷ id) else none
serialize_toy issuer subject id issued expires not_before = none

abbrev parse_toy : Text → Option TokenClaims
parse_toy (expires ∷ issued ∷ d ∷ id) = some (record {
  issuer = token_issuer;
  subject = d ∷ [];
  id = id;
  issued_at = some issued;
  expiry = some expires;
  not_before = none;
})
parse_toy token = none

abbrev since_toy : Option ℕ → Time → Bool
since_toy none now = true
since_toy (some t) now = leb (t * second) now

abbrev until_toy : Option ℕ → Time → Bool
until_toy none now = true
until_toy (some t) now = leb now (t * second)

abbrev toy_jose : Jose
toy_jose = record {
  serialize = λ c. serialize_toy c.issuer c.subject c.id c.issued_at c.expiry c.not_before;
  parse = parse_toy;
  validate = λ c issuer now.
      text_eq c.issuer issuer
      && since_toy c.not_before now
      && since_toy c.issued_at now
      && until_toy c.expiry now;
}

parse-serialize_toy :
    (issuer subject id : Text) (issued expires not_before : Option ℕ) (token : Text)
    → serialize_toy issuer subject id issued expires not_before ≡ some token
    → parse_toy token
      ≡ some (record {
        issuer = issuer;
        subject = subject;
        id = id;
        issued_at = issued;
        expiry = expires;
        not_before = not_before;
      })
parse-serialize_toy issuer (d ∷ []) id (some issued) (some expires) none token h =
    elim (Bool-cases (text_eq issuer token_issuer)) [
      | inr other ↦ absurd (ground arith)
      | inl same ↦
          let is_token : expires ∷ issued ∷ d ∷ id ≡ token = ground arith in
          ap parse_toy (sym is_token)
          ∙ ap
              (λ x. some (record {
                issuer = x;
                subject = d ∷ [];
                id = id;
                issued_at = some issued;
                expiry = some expires;
                not_before = none;
              }))
              (sym ((text_eq_iff issuer token_issuer).0 same))
    ]
parse-serialize_toy issuer [] id issued expires not_before token h = absurd (cc)
parse-serialize_toy issuer (d ∷ e ∷ s) id issued expires not_before token h = absurd (cc)
parse-serialize_toy issuer (d ∷ []) id none expires not_before token h = absurd (cc)
parse-serialize_toy issuer (d ∷ []) id (some t) none not_before token h = absurd (cc)
parse-serialize_toy issuer (d ∷ []) id (some t) (some e) (some n) token h = absurd (cc)

since_toy-holds :
    (o : Option ℕ) (now : Time) → ((t : ℕ) → o ≡ some t → t * second ≤ now) → since_toy o now ≡ true
since_toy-holds none now h = refl
since_toy-holds (some t) now h = let le = h t refl in ground arith

toy-IsJose : IsJose toy_jose
toy-IsJose = record {
  parse-serialize = λ c token issued expires not_before h.
      parse-serialize_toy c.issuer c.subject c.id c.issued_at c.expiry c.not_before token h;
  accepts = λ c now expires issued ends le early.
      rw (text_eq_refl c.issuer, early, since_toy-holds c.issued_at now issued, ends)
        (ground arith);
}

abbrev pub toy : Crypto
toy = record {
  hash_password = λ p. some (b'#' ∷ p);
  compare_password = λ h p. text_eq h (b'#' ∷ p);
  jose = toy_jose;
  hash_token = λ sid. sid;
}

abbrev pub password : Text
password = b'p' ∷ b'a' ∷ b's' ∷ b's' ∷ b'w' ∷ b'o' ∷ b'r' ∷ b'd' ∷ []

abbrev pub alice : User
alice = record {
  id = 1;
  username = b'a' ∷ [];
  password_hash = b'#' ∷ password;
  is_admin = true;
  oidc_issuer = none;
  oidc_subject = none;
}

abbrev bob : User
bob = record alice { id = 2; username = b'b' ∷ []; is_admin = false }

abbrev pub accounts : Tables (List User) (List Session)
accounts = record { users = alice ∷ []; sessions = [] }

abbrev day : Time
day = 500 * 24 * hour

abbrev expiry : Time
expiry = day + 2 * second

abbrev session : Session
session = record {
  id = 1;
  token_hash = b's' ∷ [];
  user_id = 1;
  expires_at = expiry;
  api_token = false;
  name = [];
}

abbrev token : Text
token = (expiry / second) ∷ (day / second) ∷ b'1' ∷ b's' ∷ []

abbrev signed_in : Tables (List User) (List Session)
signed_in = record accounts { sessions = session ∷ [] }

signing_in :
    login user_table session_table toy accounts
      (b' ' ∷ b'a' ∷ [])
      password
      (some (b's' ∷ []))
      (2 * second)
      (day + 5)
    ≡ ok ((token, alice, expiry), signed_in)
unfolding login first trim_space text_eq has_password create_session session_row sign claims_of
    numeric_date format_uint format_digits zero_time
signing_in = refl

login-SignedIn_example :
    SignedIn user_table session_table toy user_table-IsTable session_table-IsTable accounts
      (b' ' ∷ b'a' ∷ [])
      password
      (some (b's' ∷ []))
      (2 * second)
      (day + 5)
      token
      alice
      expiry
      signed_in
login-SignedIn_example =
    login-SignedIn user_table session_table toy user_table-IsTable session_table-IsTable accounts
      (b' ' ∷ b'a' ∷ []) password (some (b's' ∷ [])) (2 * second) (day + 5) token alice expiry
      signed_in signing_in

login-accepted_example :
    ((v : User) × (user_for_session user_table session_table toy signed_in token (day + 6) ≡ ok v)
      × (v.id ≡ 1))
    ⊎ (user_for_session user_table session_table toy signed_in token (day + 6) ≡ err internal)
login-accepted_example =
    login-accepted user_table session_table toy user_table-IsTable session_table-IsTable accounts
      (b' ' ∷ b'a' ∷ []) password (some (b's' ∷ [])) (2 * second) (day + 5) token alice expiry
      signed_in (day + 6) toy-IsJose signing_in (λ e. absurd (cc)) (omega arith)
      (unfold zero_time in omega arith) (omega arith) (omega arith) (omega arith)

accepting : user_for_session user_table session_table toy signed_in token (day + 6) ≡ ok alice
unfolding user_for_session first text_eq get_user verify parsed_token checked_claims claimed
    parse_uint parse_digits within_bits
accepting = refl

user_for_session-Accepted_example :
    Accepted user_table session_table user_table-IsTable toy session_table-IsTable signed_in token
      (day + 6)
      alice
user_for_session-Accepted_example =
    user_for_session-Accepted user_table session_table user_table-IsTable toy session_table-IsTable
      signed_in token (day + 6) alice accepting

abbrev both : Tables (List User) (List Session)
both = record {
  users = alice ∷ bob ∷ [];
  sessions = record session { user_id = 2; token_hash = b't' ∷ [] } ∷ session ∷ [];
}

abbrev bob_token : Text
bob_token = (expiry / second) ∷ (day / second) ∷ b'2' ∷ b't' ∷ []

abbrev new_alice : User
new_alice = record alice { password_hash = b'#' ∷ b'p' ∷ password }

abbrev changed_tables : Tables (List User) (List Session)
changed_tables = record {
  users = new_alice ∷ bob ∷ [];
  sessions = record session { user_id = 2; token_hash = b't' ∷ [] } ∷ [];
}

changing :
    update_user user_table session_table toy both 1 true (b'p' ∷ password)
    ≡ ok (new_alice, changed_tables)
unfolding update_user new_hash validate_password byte_len get_user first
changing = refl

bob_stays :
    user_for_session user_table session_table toy changed_tables bob_token (day + 6) ≡ ok bob
unfolding user_for_session first text_eq get_user verify parsed_token checked_claims claimed
    parse_uint parse_digits within_bits
bob_stays = refl

update_user-revokes_example : bob.id ≢ 1
update_user-revokes_example =
    update_user-revokes user_table session_table toy user_table-IsTable session_table-IsTable both 1
      true b'p' password new_alice changed_tables changing bob_token (day + 6) bob bob_stays

abbrev without_alice : Tables (List User) (List Session)
without_alice = record {
  users = bob ∷ [];
  sessions = record session { user_id = 2; token_hash = b't' ∷ [] } ∷ [];
}

deleting : delete_user user_table session_table toy both 1 ≡ ok (alice, without_alice)
unfolding delete_user
deleting = refl

bob_remains :
    user_for_session user_table session_table toy without_alice bob_token (day + 6) ≡ ok bob
unfolding user_for_session first text_eq get_user verify parsed_token checked_claims claimed
    parse_uint parse_digits within_bits
bob_remains = refl

delete_user-revokes_example : bob.id ≢ 1
delete_user-revokes_example =
    delete_user-revokes user_table session_table toy user_table-IsTable session_table-IsTable both 1
      alice without_alice deleting bob_token (day + 6) bob bob_remains

logging_out :
    logout user_table session_table toy signed_in token (day + 6) ≡ (ok (some alice), accounts)
unfolding logout first text_eq get_user verify parsed_token checked_claims claimed parse_uint
    parse_digits within_bits
logging_out = refl

option_value : {A : Type 0} {a b : A} → some a ≡ some b → a ≡ b
option_value h = ground arith

verified : (t : Time) → (t ≡ day + 6) ⊎ (t ≡ day + 7) → verify toy t token ≡ some (b's' ∷ [], 1)
unfolding verify parsed_token checked_claims claimed parse_uint parse_digits within_bits text_eq
verified t (inl e) = ap (λ now. verify toy now token) e ∙ refl
verified t (inr e) = ap (λ now. verify toy now token) e ∙ refl

logout-ends_example :
    user_for_session user_table session_table toy accounts token (day + 7) ≢ ok alice
logout-ends_example =
    logout-ends user_table session_table toy user_table-IsTable session_table-IsTable signed_in
      token (day + 6) (day + 7) (b's' ∷ []) 1 (some alice) accounts (verified (day + 6) (inl refl))
      (λ c h. option_value (sym h ∙ verified (day + 7) (inr refl))) (omega arith) logging_out alice

abbrev with_bob : Tables (List User) (List Session)
with_bob = record accounts { users = alice ∷ record bob { password_hash = b'#' ∷ password } ∷ [] }

creating :
    create_user user_table session_table toy accounts (b'b' ∷ b' ' ∷ []) password false
    ≡ ok (bob, with_bob)
unfolding create_user insert_user validate_password byte_len normalize_username trim_space new_user
creating = refl

create_user-NewAccount_example :
    (validate_password password ≡ ok tt)
    × NewAccount user_table session_table toy user_table-IsTable accounts
        (b'b' ∷ b' ' ∷ [])
        password
        false
        bob
        with_bob
create_user-NewAccount_example =
    create_user-NewAccount user_table session_table toy user_table-IsTable accounts
      (b'b' ∷ b' ' ∷ []) password false bob with_bob creating

abbrev nobody : Tables (List User) (List Session)
nobody = record { users = []; sessions = [] }

ensuring :
    ensure_admin user_table session_table toy nobody (b'a' ∷ []) password ≡ ok (true, accounts)
unfolding ensure_admin has_admin first_admin insert_user normalize_username trim_space new_user
ensuring = refl

ensure_admin-any_example :
    (any (λ u. u.is_admin) (user_table.rows accounts.users) ≡ true)
    × (((true ≡ false) × (accounts ≡ nobody))
        ⊎ ((true ≡ true)
            × (any (λ u. u.is_admin) (user_table.rows nobody.users) ≡ false)
            × ((u : User) × NewAccount user_table session_table toy user_table-IsTable nobody
                  (b'a' ∷ [])
                  password
                  true
                  u
                  accounts)))
ensure_admin-any_example =
    ensure_admin-any user_table session_table toy user_table-IsTable nobody (b'a' ∷ []) password
      true accounts ensuring
