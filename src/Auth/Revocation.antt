-- ===== src/Auth/Revocation.antt =====
-- The ends of sessions: a new password, a deleted account, a sign-out.
use mathlib.Core.Path.{subst}
use unit_management.Base.{
  ℕ, ◌≡◌, ◌≢◌, ◌≤◌, refl, sym, ap, ◌∙◌, inl, inr, Bool, true, not, ◌&&◌, Option, some, List, [],
  ◌∷◌, arith, ok, Result-cases, Option-cases, find?, find?-holds, keep_if, any, ltb,
}
use unit_management.Text.{Text, text_eq}
use unit_management.Database.{Table, IsTable}
use unit_management.Models.{Time, User, Session}
use unit_management.Auth.Signer.{verify}
use unit_management.Auth.{Tables, Crypto, wrap, user_by_id, session_of, get_user}
use unit_management.Auth.Users.{update_user, new_hash, end_sessions, delete_user, deleted_user}
use unit_management.Auth.Sessions.{
  live, user_for_session, logout, verified_logout, end_session, logged_out,
}
use unit_management.Auth.Lookup.{KeptUser, KeptSession, wrap-eq-ok, user_for_session-Accepted}

-- What is found among the elements kept passes both tests.
find?-keep_if-both :
    {A : Type 0} (p q : A → Bool) (xs : List A) {x : A}
    → find? q (keep_if p xs) ≡ some x
    → (p x ≡ true) × (q x ≡ true)
find?-keep_if-both p q [] h = absurd (cc)
find?-keep_if-both p q (y ∷ ys) {x} h = ground (arith, find?-keep_if-both p q ys {x = x})

module _ {T S : Type 0} (users : Table T User) (sessions : Table S Session) (crypto : Crypto)
    (user_laws : IsTable KeptUser users) (session_laws : IsTable KeptSession sessions) where
  -- A token cannot act as a user without sessions.
  no_session :
      (t : Tables T S) (id : ℕ) (p : Session → Bool) (old : List Session)
      → sessions.rows t.sessions ≡ keep_if p old
      → ((s : Session) → s.user_id ≡ id → p s ≢ true)
      → (token : Text) (now : Time) (u : User)
      → user_for_session users sessions crypto t token now ≡ ok u
      → u.id ≢ id
  no_session t id p old rows gone token now u h same =
      let a =
        user_for_session-Accepted users sessions user_laws crypto session_laws t token now u h in
      let (kept, _) = find?-keep_if-both p _ old (ap (find? _) (sym rows) ∙ a.found) in
      let at = find?-holds (user_by_id a.session.user_id) (users.rows t.users) a.owner in
      gone a.session (ground arith) kept

  new_hash-some :
      (c : ℕ) (cs : Text) (o : Option Text)
      → new_hash users sessions crypto (c ∷ cs) ≡ ok o
      → (hash : Text) × (o ≡ some hash) × (crypto.hash_password (c ∷ cs) ≡ some hash)
  unfolding new_hash
  new_hash-some c cs o h = elim (Option-cases (crypto.hash_password (c ∷ cs))) [
    | inl e ↦ absurd (ground arith)
    | inr (hash, e) ↦ (hash, ground arith, e)
  ]

  update_user-sessions :
      (t : Tables T S) (id : ℕ) (is_admin : Bool) (c : ℕ) (cs : Text) {u : User} {t' : Tables T S}
      → update_user users sessions crypto t id is_admin (c ∷ cs) ≡ ok (u, t')
      → sessions.rows t'.sessions ≡ keep_if (λ s. not (session_of id s)) (sessions.rows t.sessions)
  unfolding update_user end_sessions
  update_user-sessions t id is_admin c cs {u} {t'} h =
      elim (Result-cases (new_hash users sessions crypto (c ∷ cs))) [
        | inr (e, bad) ↦ absurd (ground arith)
        | inl (o, hashed) ↦
            let (hash, is_hash, _) = new_hash-some c cs o hashed in
            elim (Result-cases (get_user users sessions t id)) [
              | inr (e, bad) ↦ absurd (ground arith)
              | inl (v, got) ↦
                  elim (Result-cases (wrap (sessions.delete t.sessions (session_of id)))) [
                    | inr (e, bad) ↦ absurd (ground arith)
                    | inl ((ss, gone), deleted_so) ↦
                        let (rows, _) =
                          session_laws.delete-rows t.sessions (session_of id) ss gone
                            (wrap-eq-ok _ deleted_so) in
                        subst
                          (λ x.
                            sessions.rows x
                            ≡ keep_if (λ s. not (session_of id s)) (sessions.rows t.sessions))
                          (ground arith) rows
                  ]
            ]
      ]

  -- Over lawful tables, after UpdateUser has given an account a new password, no token is accepted
  -- as a session of that account in the tables it leaves.
  pub update_user-revokes :
      (t : Tables T S) (id : ℕ) (is_admin : Bool) (c : ℕ) (cs : Text) (u : User) (t' : Tables T S)
      → update_user users sessions crypto t id is_admin (c ∷ cs) ≡ ok (u, t')
      → (token : Text) (now : Time) (v : User)
      → user_for_session users sessions crypto t' token now ≡ ok v
      → v.id ≢ id
  update_user-revokes t id is_admin c cs u t' h =
      no_session t' id (λ s. not (session_of id s)) (sessions.rows t.sessions)
        (update_user-sessions t id is_admin c cs h) λ s same kept. ground arith

  deleted_user-eq :
      (gone : List User) (t : Tables T S) {u : User} {t' : Tables T S}
      → deleted_user users sessions crypto gone t ≡ ok (u, t')
      → t ≡ t'
  unfolding deleted_user
  deleted_user-eq [] t h = absurd (cc)
  deleted_user-eq (v ∷ gone) t h = ground arith

  pub delete_user-rows :
      (t : Tables T S) (id : ℕ) {u : User} {t' : Tables T S}
      → delete_user users sessions crypto t id ≡ ok (u, t')
      → users.rows t'.users ≡ keep_if (λ u. not (user_by_id id u)) (users.rows t.users)
  unfolding delete_user
  delete_user-rows t id {u} {t'} h =
      elim (Result-cases (wrap (users.delete t.users (user_by_id id)))) [
        | inr (e, bad) ↦ absurd (ground arith)
        | inl ((us, gone), deleted_so) ↦
            elim (Result-cases
              (wrap (sessions.delete t.sessions (λ s. any (user_by_id s.user_id) gone)))) [
                | inr (e, bad) ↦ absurd (ground arith)
                | inl ((ss, ended), cascaded) ↦
                    let (rows, _) =
                      user_laws.delete-rows t.users (user_by_id id) us gone
                        (wrap-eq-ok _ deleted_so) in
                    let same : record { users = us; sessions = ss } ≡ t' =
                      deleted_user-eq gone _ {u = u} (ground arith) in
                    ap (λ x. users.rows x.users) (sym same) ∙ rows
              ]
      ]

  -- Over lawful tables, after DeleteUser has deleted an account, no token is accepted as a session
  -- of that account in the tables it leaves.
  pub delete_user-revokes :
      (t : Tables T S) (id : ℕ) (u : User) (t' : Tables T S)
      → delete_user users sessions crypto t id ≡ ok (u, t')
      → (token : Text) (now : Time) (v : User)
      → user_for_session users sessions crypto t' token now ≡ ok v
      → v.id ≢ id
  delete_user-revokes t id u t' h token now v accepted same =
      let a =
        user_for_session-Accepted users sessions user_laws crypto session_laws t' token now v
          accepted in
      let (kept, _) =
        find?-keep_if-both (λ u. not (user_by_id id u)) _ (users.rows t.users)
          (ap (find? _) (sym (delete_user-rows t id h)) ∙ a.owner) in
      ground arith

  logged_out-tables :
      (t : Tables T S) (gone : List Session) → (logged_out users sessions crypto t gone).1 ≡ t
  unfolding logged_out
  logged_out-tables t [] = refl
  logged_out-tables t (s ∷ gone) = refl

  logout-rows :
      (t : Tables T S) (token : Text) (now : Time) (sid : Text) (id : ℕ) (o : Option User)
      (t' : Tables T S)
      → verify crypto now token ≡ some (sid, id)
      → logout users sessions crypto t token now ≡ (ok o, t')
      → sessions.rows t'.sessions
        ≡ keep_if
            (λ s. not (text_eq s.token_hash (crypto.hash_token sid) && ltb now s.expires_at))
            (sessions.rows t.sessions)
  unfolding logout verified_logout end_session
  logout-rows t token now sid id o t' verified h =
      elim (Result-cases (
        wrap (
          sessions.delete t.sessions
            (λ s. text_eq s.token_hash (crypto.hash_token sid) && ltb now s.expires_at)))) [
              | inr (e, bad) ↦ absurd (ground arith)
              | inl ((ss, gone), deleted_so) ↦
                  let (rows, _) =
                    session_laws.delete-rows t.sessions _ ss gone (wrap-eq-ok _ deleted_so) in
                  let same : (logged_out users sessions crypto (record t { sessions = ss }) gone).1
                      ≡ t' =
                    ground arith in
                  ap (λ x. sessions.rows x.sessions)
                    (sym same ∙ logged_out-tables (record t { sessions = ss }) gone)
                  ∙ rows
            ]

  -- Over lawful tables, after a valid token has signed out without an error, it is not accepted as
  -- a session's at that time or later, if the verification of the token finds no other claims in it
  -- then.
  pub logout-ends :
      (t : Tables T S) (token : Text) (now later : Time) (sid : Text) (id : ℕ) (o : Option User)
      (t' : Tables T S)
      → verify crypto now token ≡ some (sid, id)
      → ((c : Text × ℕ) → verify crypto later token ≡ some c → c ≡ (sid, id))
      → now ≤ later
      → logout users sessions crypto t token now ≡ (ok o, t')
      → (u : User) → user_for_session users sessions crypto t' token later ≢ ok u
  logout-ends t token now later sid id o t' verified same_claims le h u accepted =
      let a =
        user_for_session-Accepted users sessions user_laws crypto session_laws t' token later u
          accepted in
      let claims = same_claims _ a.verified in
      let (kept, hit) =
        find?-keep_if-both
          (λ s. not (text_eq s.token_hash (crypto.hash_token sid) && ltb now s.expires_at)) _
          (sessions.rows t.sessions)
          (ap (find? _) (sym (logout-rows t token now sid id o t' verified h)) ∙ a.found) in
      let hit' : live (crypto.hash_token sid) id later a.session ≡ true =
        subst (λ (c : Text × ℕ). live (crypto.hash_token c.0) c.1 later a.session ≡ true) claims
          hit in
      ground arith
