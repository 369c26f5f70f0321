-- ===== src/Auth/Lookup.antt =====
-- Reading accounts and sessions: what a success says of the tables.
use unit_management.Base.{
  ℕ, ◌≡◌, ◌<◌, sym, ◌∙◌, inl, inr, true, none, some, arith, ok, or_err, or_err-ok, Result-cases,
  find?, find?-holds,
}
use unit_management.Base.Among.{Among, Among-find?}
use unit_management.Text.{Text, text_eq_iff}
use unit_management.Database.{Answer, done, duplicate, failed, Table, IsTable, first, first-rows}
use unit_management.Models.{Time, User, Session}
use unit_management.Auth.Signer.{verify}
use unit_management.Auth.{AuthError, Tables, Crypto, wrap, user_by_id, get_user}
use unit_management.Auth.Users.{map_create_error}
use unit_management.Auth.Sessions.{live, user_for_session}

-- The database gives an inserted account or session its ID.
abbrev pub KeptUser : User → User → Type 0
KeptUser r r' = r' ≡ record r { id = r'.id }

abbrev pub KeptSession : Session → Session → Type 0
KeptSession r r' = r' ≡ record r { id = r'.id }

pub wrap-eq-ok : {A : Type 0} (a : Answer A) {x : A} → wrap a ≡ ok x → a ≡ done x
wrap-eq-ok (done x) h = ground arith
wrap-eq-ok duplicate h = cc
wrap-eq-ok failed h = cc

pub map_create_error-eq-ok :
    {A : Type 0} (a : Answer A) {x : A} → map_create_error a ≡ ok x → a ≡ done x
map_create_error-eq-ok (done x) h = ground arith
map_create_error-eq-ok duplicate h = cc
map_create_error-eq-ok failed h = cc

live-hash :
    (hash : Text) (id : ℕ) (now : Time) (s : Session)
    → live hash id now s ≡ true
    → s.token_hash ≡ hash
live-hash hash id now s h = (text_eq_iff s.token_hash hash).0 (ground arith)

pub live-user :
    (hash : Text) (id : ℕ) (now : Time) (s : Session) → live hash id now s ≡ true → s.user_id ≡ id
live-user hash id now s h = ground arith

live-expiry :
    (hash : Text) (id : ℕ) (now : Time) (s : Session)
    → live hash id now s ≡ true
    → now < s.expires_at
live-expiry hash id now s h = ground arith

module _ {T S : Type 0} (users : Table T User) (sessions : Table S Session)
    (user_laws : IsTable KeptUser users) where
  pub get_user-ok :
      (t : Tables T S) (id : ℕ) {u : User}
      → get_user users sessions t id ≡ ok u
      → find? (user_by_id id) (users.rows t.users) ≡ some u
  unfolding get_user
  get_user-ok t id {u} h = elim (Result-cases (wrap (first users t.users (user_by_id id)))) [
    | inr (e, bad) ↦ absurd (ground arith)
    | inl (none, good) ↦ absurd (ground arith)
    | inl (some v, good) ↦
        sym (first-rows users user_laws t.users (user_by_id id) (some v) (wrap-eq-ok _ good))
        ∙ ground arith
  ]

  module _ (crypto : Crypto) (session_laws : IsTable KeptSession sessions) where
    -- What stands behind a token that is accepted.
    pub record Accepted (t : Tables T S) (token : Text) (now : Time) (u : User) : Type 0 where
      pub session_id : Text
      pub user_id : ℕ
      pub verified : verify crypto now token ≡ some (session_id, user_id)
      pub session : Session
      pub found :
          find? (live (crypto.hash_token session_id) user_id now) (sessions.rows t.sessions)
          ≡ some session
      pub stored : Among (sessions.rows t.sessions) session
      pub hash_same : session.token_hash ≡ crypto.hash_token session_id
      pub user_same : session.user_id ≡ user_id
      pub not_expired : now < session.expires_at
      pub owner : find? (user_by_id session.user_id) (users.rows t.users) ≡ some u

    -- Over lawful tables, a token that is accepted as a session's verifies, its session is stored,
    -- with the hash of the ID in the token and for the user in it, and expires after the time of
    -- the call, and it acts as the stored account of that session.
    pub user_for_session-Accepted :
        (t : Tables T S) (token : Text) (now : Time) (u : User)
        → user_for_session users sessions crypto t token now ≡ ok u
        → Accepted t token now u
    unfolding user_for_session
    user_for_session-Accepted t token now u h =
        elim (Result-cases (or_err (verify crypto now token) AuthError.invalid_session)) [
          | inr (e, bad) ↦ absurd (ground arith)
          | inl ((sid, id), verified) ↦
              elim (Result-cases
                (wrap (first sessions t.sessions (live (crypto.hash_token sid) id now)))) [
                  | inr (e, bad) ↦ absurd (ground arith)
                  | inl (none, good) ↦ absurd (ground arith)
                  | inl (some s, good) ↦
                      let found : find? (live (crypto.hash_token sid) id now)
                            (sessions.rows t.sessions)
                          ≡ some s =
                        sym (
                          first-rows sessions session_laws t.sessions _ (some s)
                            (wrap-eq-ok _ good)) in
                      let is_live =
                        find?-holds (live (crypto.hash_token sid) id now) (sessions.rows t.sessions)
                          found in
                      record {
                        session_id = sid;
                        user_id = id;
                        verified =
                            or_err-ok (verify crypto now token) AuthError.invalid_session verified;
                        session = s;
                        found = found;
                        stored =
                            Among-find? (live (crypto.hash_token sid) id now)
                              (sessions.rows t.sessions) found;
                        hash_same = live-hash (crypto.hash_token sid) id now s is_live;
                        user_same = live-user (crypto.hash_token sid) id now s is_live;
                        not_expired = live-expiry (crypto.hash_token sid) id now s is_live;
                        owner = get_user-ok t s.user_id (ground arith);
                      }
                ]
        ]
