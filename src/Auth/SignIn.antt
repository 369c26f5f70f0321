-- ===== src/Auth/SignIn.antt =====
-- Sign-in, and the token that it answers.
use mathlib.Core.Path.{subst}
use unit_management.Base.{
  ℕ, ◌+◌, ◌*◌, ◌/◌, ◌^◌, ◌≡◌, ◌≢◌, ◌⊎◌, ◌≤◌, ◌<◌, refl, sym, ap, ◌∙◌, inl, inr, Bool, true, false,
  Option, none, some, List, [], ◌∷◌, ◌++◌, arith, ok, err, is_some, Result-cases, Option-cases,
  Bool-cases, find?, find?-holds, ◌==◌, ==_refl, ==_iff,
}
use unit_management.Text.{Text, text_eq_refl, is_empty, trim_space}
use unit_management.Database.{Answer, done, duplicate, failed, Table, IsTable, first, first-rows}
use unit_management.Models.{Time, zero_time, second, User, Session, has_password}
use unit_management.Auth.Signer.{sign, verify, IsJose, verify-sign}
use unit_management.Auth.{internal, Tables, Crypto, wrap, user_by_id, user_by_name, get_user}
use unit_management.Auth.Sessions.{
  live, session_row, create_session, NewSession, sign_in, login, user_for_session, truncate_second,
}
use unit_management.Auth.Lookup.{KeptUser, KeptSession, wrap-eq-ok, live-user}

found-is_some :
    {A : Type 0} (p q : A → Bool) (xs : List A) {x : A}
    → find? p xs ≡ some x
    → q x ≡ true
    → is_some (find? q xs) ≡ true
found-is_some p q [] h t = absurd (cc)
found-is_some p q (y ∷ ys) {x} h t = ground (arith, found-is_some p q ys {x = x})

found-last :
    (p : Session → Bool) (xs : List Session) (y : Session)
    → p y ≡ true
    → is_some (find? p (xs ++ y ∷ [])) ≡ true
found-last p [] y h = ground arith
found-last p (x ∷ xs) y h = ground (arith, found-last p xs y)

is_some-eq : {A : Type 0} (o : Option A) → is_some o ≡ true → (a : A) × (o ≡ some a)
is_some-eq none h = absurd (cc)
is_some-eq (some a) h = (a, refl)

live-holds :
    (hash : Text) (id : ℕ) (now : Time) (s : Session)
    → s.token_hash ≡ hash
    → s.user_id ≡ id
    → now < s.expires_at
    → live hash id now s ≡ true
live-holds hash id now s same_hash same_id not_over =
    rw (same_hash, same_id, text_eq_refl hash, ==_refl id) (ground arith)

nonempty : (s : Text) → s ≢ [] → is_empty s ≡ false
nonempty [] h = absurd (h refl)
nonempty (c ∷ s) h = refl

truncated : (t : Time) → (truncate_second t / second) * second ≡ truncate_second t
truncated t = omega arith

-- The answer of a query that does not fail, or the failure.
wrap-first :
    {T R : Type 0} {Stored : R → R → Type 0} (t : Table T R) (laws : IsTable Stored t) (s : T)
    (p : R → Bool)
    → (wrap (first t s p) ≡ ok (find? p (t.rows s))) ⊎ (wrap (first t s p) ≡ err internal)
wrap-first t laws s p = go (first t s p) (first-rows t laws s p)
  where
    go :
        (a : Answer (Option _))
        → ((o : Option _) → a ≡ done o → o ≡ find? p (t.rows s))
        → (wrap a ≡ ok (find? p (t.rows s))) ⊎ (wrap a ≡ err internal)
    go (done o) same = inl (ap ok (same o refl))
    go duplicate same = inr refl
    go failed same = inr refl

module _ {T S : Type 0} (users : Table T User) (sessions : Table S Session) (crypto : Crypto)
    (user_laws : IsTable KeptUser users) (session_laws : IsTable KeptSession sessions) where
  -- What a session that was created has left behind.
  pub record Created (t : Tables T S) (session_id : Option Text) (id : ℕ) (api_token : Bool)
      (name : Text) (ttl : ℕ) (now : Time) (n : NewSession) (t' : Tables T S) : Type 0 where
    pub sid : Text
    pub drawn : session_id ≡ some sid
    pub signed : sign crypto sid id now (truncate_second (now + ttl)) ≡ some n.token
    pub rows : sessions.rows t'.sessions ≡ sessions.rows t.sessions ++ n.session ∷ []
    pub stored :
        n.session
        ≡ record (session_row
            (crypto.hash_token sid)
            id
            (truncate_second (now + ttl))
            api_token
            name) { id = n.session.id }
    pub users_kept : t'.users ≡ t.users

  pub create_session-Created :
      (t : Tables T S) (session_id : Option Text) (id : ℕ) (api_token : Bool) (name : Text)
      (ttl : ℕ) (now : Time) (n : NewSession) (t' : Tables T S)
      → create_session users sessions crypto t session_id id api_token name ttl now ≡ ok (n, t')
      → Created t session_id id api_token name ttl now n t'
  unfolding create_session
  create_session-Created t session_id id api_token name ttl now n t' h =
      elim (Option-cases session_id) [
        | inl e ↦ absurd (ground arith)
        | inr (sid, e) ↦
            elim (Option-cases (sign crypto sid id now (truncate_second (now + ttl)))) [
              | inl bad ↦ absurd (ground arith)
              | inr (token, signed) ↦
                  elim (Result-cases (
                    wrap (
                      sessions.insert t.sessions (
                        session_row (crypto.hash_token sid) id (truncate_second (now + ttl))
                          api_token name)))) [
                            | inr (x, bad) ↦ absurd (ground arith)
                            | inl ((ss, s), good) ↦
                                let (rows, kept) =
                                  session_laws.insert-rows t.sessions _ ss s (wrap-eq-ok _ good) in
                                let is_n : record { session = s; token = token } ≡ n =
                                  ground arith in
                                let is_t : record t { sessions = ss } ≡ t' = ground arith in
                                record {
                                  sid = sid;
                                  drawn = e;
                                  signed = signed ∙ ap (λ x. some x.token) is_n;
                                  rows =
                                      ap (λ x. sessions.rows x.sessions) (sym is_t)
                                      ∙ (rows
                                          ∙ ap (λ x. sessions.rows t.sessions ++ x.session ∷ [])
                                              is_n);
                                  stored =
                                      subst
                                        (λ x.
                                          x.session
                                          ≡ record (session_row (crypto.hash_token sid) id
                                              (truncate_second (now + ttl)) api_token name) {
                                                id = x.session.id;
                                              })
                                        is_n kept;
                                  users_kept = ap (λ x. x.users) (sym is_t);
                                }
                          ]
            ]
      ]

  -- The tables after a sign-in: the session it created is the only change, and the account it
  -- answers is the one under the name, with the password.
  pub record SignedIn (t : Tables T S) (username password : Text) (session_id : Option Text)
      (ttl : ℕ) (now : Time) (token : Text) (u : User) (expires : Time) (t' : Tables T S)
      : Type 0 where
    pub account : find? (user_by_name (trim_space username)) (users.rows t.users) ≡ some u
    pub checked : crypto.compare_password u.password_hash password ≡ true
    pub session : NewSession
    pub created : Created t session_id u.id false [] ttl now session t'
    pub same_token : session.token ≡ token
    pub same_expiry : session.session.expires_at ≡ expires

  sign_in-SignedIn :
      (t : Tables T S) (username password : Text) (session_id : Option Text) (ttl : ℕ) (now : Time)
      (o : Option User) (token : Text) (u : User) (expires : Time) (t' : Tables T S)
      → o ≡ find? (user_by_name (trim_space username)) (users.rows t.users)
      → sign_in users sessions crypto t password session_id ttl now o ≡ ok ((token, u, expires), t')
      → SignedIn t username password session_id ttl now token u expires t'
  unfolding sign_in
  sign_in-SignedIn t username password session_id ttl now none token u expires t' e h =
      absurd (ground arith)
  sign_in-SignedIn t username password session_id ttl now (some v) token u expires t' e h =
      elim (Bool-cases (has_password v)) [
        | inr bad ↦ absurd (ground arith)
        | inl _ ↦ elim (Bool-cases (crypto.compare_password v.password_hash password)) [
          | inr bad ↦ absurd (ground arith)
          | inl checked ↦
              elim (Result-cases
                (create_session users sessions crypto t session_id v.id false [] ttl now)) [
                  | inr (x, bad) ↦ absurd (ground arith)
                  | inl ((n, t2), good) ↦
                      let is_u : v ≡ u = ground arith in
                      let is_t : t2 ≡ t' = ground arith in
                      record {
                        account = sym e ∙ ap some is_u;
                        checked =
                            ap (λ w. crypto.compare_password w.password_hash password) (sym is_u)
                            ∙ checked;
                        session = n;
                        created = create_session-Created t session_id u.id false [] ttl now n t' (
                            ap
                              (λ w.
                                create_session users sessions crypto t session_id w.id false [] ttl
                                  now)
                              (sym is_u)
                            ∙ (good ∙ ap (λ x. ok (n, x)) is_t));
                        same_token = ground arith;
                        same_expiry = ground arith;
                      }
                ]
        ]
      ]

  -- Over lawful tables, a sign-in that succeeds has found the account under the trimmed name, its
  -- password matched, and the tables differ from before by one new session, of which the hash of
  -- its ID is stored.
  pub login-SignedIn :
      (t : Tables T S) (username password : Text) (session_id : Option Text) (ttl : ℕ) (now : Time)
      (token : Text) (u : User) (expires : Time) (t' : Tables T S)
      → login users sessions crypto t username password session_id ttl now
        ≡ ok ((token, u, expires), t')
      → SignedIn t username password session_id ttl now token u expires t'
  unfolding login
  login-SignedIn t username password session_id ttl now token u expires t' h =
      elim (Result-cases (wrap (first users t.users (user_by_name (trim_space username))))) [
        | inr (e, bad) ↦ absurd (ground arith)
        | inl (o, good) ↦
            sign_in-SignedIn t username password session_id ttl now o token u expires t'
              (first-rows users user_laws t.users _ o (wrap-eq-ok _ good)) (ground arith)
      ]

  -- A verified token of a live session acts as the session's user, if the database does not fail.
  found_accepted :
      (t : Tables T S) (token : Text) (later : Time) (sid : Text) (id : ℕ) (x : Session) (v : User)
      → verify crypto later token ≡ some (sid, id)
      → find? (live (crypto.hash_token sid) id later) (sessions.rows t.sessions) ≡ some x
      → find? (user_by_id x.user_id) (users.rows t.users) ≡ some v
      → (user_for_session users sessions crypto t token later ≡ ok v)
        ⊎ (user_for_session users sessions crypto t token later ≡ err internal)
  unfolding user_for_session get_user
  found_accepted t token later sid id x v verified found known =
      elim (wrap-first sessions session_laws t.sessions (live (crypto.hash_token sid) id later)) [
        | inr failure ↦ inr (ground arith)
        | inl found_so ↦ elim (wrap-first users user_laws t.users (user_by_id x.user_id)) [
          | inr failure ↦ inr (ground arith)
          | inl known_so ↦ inl (ground arith)
        ]
      ]

  -- Over lawful tables, with a JWT library that keeps the claims that it signs, with dates within
  -- 2^53 seconds, and accepts the expected issuer from the time of issue to the expiry, both in
  -- whole seconds, the token of a sign-in with a session ID that is not empty, for an account with
  -- an ID of 64 bits, at or after the zero time, is accepted as a session's at any time from then
  -- until its expiry, if that is within 2^53 seconds, for an account with the ID of the one that
  -- signed in, or the database failed.
  pub login-accepted :
      (t : Tables T S) (username password : Text) (session_id : Option Text) (ttl : ℕ) (now : Time)
      (token : Text) (u : User) (expires : Time) (t' : Tables T S) (later : Time)
      → IsJose crypto.jose
      → login users sessions crypto t username password session_id ttl now
        ≡ ok ((token, u, expires), t')
      → session_id ≢ some []
      → u.id < 2 ^ 64
      → zero_time ≤ now
      → now ≤ later
      → later < expires
      → expires < 2 ^ 53 * second
      → ((v : User) × (user_for_session users sessions crypto t' token later ≡ ok v)
          × (v.id ≡ u.id))
        ⊎ (user_for_session users sessions crypto t' token later ≡ err internal)
  unfolding session_row
  login-accepted t username password session_id ttl now token u expires t' later laws h named bits
        set le lt near =
      let s = login-SignedIn t username password session_id ttl now token u expires t' h in
      let c = s.created in
      let ends : truncate_second (now + ttl) ≡ expires =
        ap (λ x. x.expires_at) (sym c.stored) ∙ s.same_expiry in
      let verified : verify crypto later token ≡ some (c.sid, u.id) =
        verify-sign crypto c.sid u.id now expires token later laws
          (ap (sign crypto c.sid u.id now) (sym ends) ∙ c.signed ∙ ap some s.same_token)
          (nonempty c.sid (λ e. named (c.drawn ∙ ap some e))) bits
          (ap (λ x. (x / second) * second) (sym ends) ∙ truncated (now + ttl) ∙ ends) set le lt
          near in
      let is_live : live (crypto.hash_token c.sid) u.id later s.session.session ≡ true =
        live-holds (crypto.hash_token c.sid) u.id later s.session.session
          (ap (λ x. x.token_hash) c.stored) (ap (λ x. x.user_id) c.stored)
          (subst (λ x. later < x) (sym s.same_expiry) lt) in
      let (x, found) =
        is_some-eq (find? (live (crypto.hash_token c.sid) u.id later) (sessions.rows t'.sessions)) (
          ap (λ rs. is_some (find? (live (crypto.hash_token c.sid) u.id later) rs)) c.rows
          ∙ found-last _ (sessions.rows t.sessions) s.session.session is_live) in
      let same_user =
        live-user (crypto.hash_token c.sid) u.id later x
          (find?-holds _ (sessions.rows t'.sessions) found) in
      let (v, known) = is_some-eq (find? (user_by_id x.user_id) (users.rows t'.users)) (
        ap (λ us. is_some (find? (user_by_id x.user_id) (users.rows us))) c.users_kept
        ∙ found-is_some _ (user_by_id x.user_id) (users.rows t.users) s.account
            (subst (λ n. (u.id == n) ≡ true) (sym same_user) (==_refl u.id))) in
      let same_id : v.id ≡ u.id =
        (==_iff v.id x.user_id).0 (find?-holds (user_by_id x.user_id) (users.rows t'.users) known)
        ∙ same_user in
      elim (found_accepted t' token later c.sid u.id x v verified found known) [
        | inl accepted ↦ inl (v, accepted, same_id)
        | inr failure ↦ inr failure
      ]
