-- ===== src/Server/Accounts/LastAdmin.antt =====
-- An administrator cannot lock everyone out: whatever the requests, the account that makes them
-- stays, and stays an administrator.
use mathlib.Core.Path.{subst}
use unit_management.Base.{
  ℕ, ◌≡◌, refl, sym, ap, ◌∙◌, inl, inr, Bool, true, false, not, ◌&&◌, ◌||◌, Option, none, some,
  List, [], ◌∷◌, ◌++◌, arith, ◌==◌, ==_iff, Result, ok, err, >>=-eq-ok, Bool-cases, find?, map_if,
  find?-map_if, find?-map_if_ne, find?-append_none, find?-keep_if_ne, find?-holds,
}
use unit_management.Text.{Text, is_empty}
use unit_management.Database.{Table, IsTable}
use unit_management.Models.{User, Session}
use unit_management.Auth.{AuthError, Tables, Crypto, wrap, user_by_id, session_of, get_user}
use unit_management.Auth.Users.{update_user, delete_user, new_hash, changed_user, end_sessions}
use unit_management.Auth.Lookup.{KeptUser, KeptSession, wrap-eq-ok, get_user-ok}
use unit_management.Auth.Accounts.{create_user-NewAccount}
use unit_management.Auth.Revocation.{delete_user-rows}
use unit_management.Server.Accounts.{
  State, CreateRequest, UpdateRequest, bool_eq, admin_managed, created_response, handle_create_user,
  updated_response, update_target, handle_update_user, deleted_response, handle_delete_user,
}

-- The requests of user_handlers.go that change an account.
pub data Request : Type 0 where
  creates : Option CreateRequest → Request
  updates : Option ℕ → Option UpdateRequest → Request
  deletes : Option ℕ → Request

module _ {T S : Type 0} (users : Table T User) (sessions : Table S Session) (crypto : Crypto)
    (user_laws : IsTable KeptUser users) (session_laws : IsTable KeptSession sessions) where
  -- The account with the ID is there, and an administrator.
  unfoldable pub IsAdmin : ℕ → Tables T S → Type 0
  IsAdmin id t =
      (u : User) × (find? (user_by_id id) (users.rows t.users) ≡ some u) × (u.is_admin ≡ true)

  changed_user-fields :
      (u : User) (is_admin : Bool) (o : Option Text)
      → ((changed_user users sessions crypto u is_admin o).id ≡ u.id)
        × ((changed_user users sessions crypto u is_admin o).is_admin ≡ is_admin)
  unfolding changed_user
  changed_user-fields u is_admin none = (refl, refl)
  changed_user-fields u is_admin (some hash) = (refl, refl)

  end_sessions-users :
      (t : Tables T S) (id : ℕ) (o : Option Text) (t' : Tables T S)
      → end_sessions users sessions crypto t id o ≡ ok t'
      → t'.users ≡ t.users
  unfolding end_sessions
  end_sessions-users t id none t' h = ground arith
  end_sessions-users t id (some hash) t' h =
      let (deletion, _, e) = >>=-eq-ok (wrap (sessions.delete t.sessions (session_of id))) _ h in
      ground arith

  update_user-rows :
      (t : Tables T S) (id : ℕ) (is_admin : Bool) (password : Text) (u : User) (t' : Tables T S)
      → update_user users sessions crypto t id is_admin password ≡ ok (u, t')
      → (v : User) × (v.id ≡ id)
        × (v.is_admin ≡ is_admin)
        × (users.rows t'.users ≡ map_if (user_by_id id) (λ _. v) (users.rows t.users))
  unfolding update_user
  update_user-rows t id is_admin password u t' h =
      let (o, _, h1) = >>=-eq-ok (new_hash users sessions crypto password) _ h in
      let (user, got, h2) = >>=-eq-ok (get_user users sessions t id) _ h1 in
      let (t1, ended, h3) = >>=-eq-ok (end_sessions users sessions crypto t id o) _ h2 in
      let v = changed_user users sessions crypto user is_admin o in
      let ((us, n), stored, h4) =
        >>=-eq-ok (wrap (users.update t1.users (user_by_id id) (λ _. v))) _ h3 in
      let (rows, _) = user_laws.update-rows t1.users _ _ us n (wrap-eq-ok _ stored) in
      let found =
        find?-holds (user_by_id id) (users.rows t.users)
          (get_user-ok users sessions user_laws t id got) in
      let (same_id, same_role) = changed_user-fields user is_admin o in
      let is_t : record t1 { users = us } ≡ t' = ground arith in
      (
        v,
        same_id ∙ (==_iff user.id id).0 found,
        same_role,
        ap (λ x. users.rows x.users) (sym is_t)
            ∙ (rows
                ∙ ap (λ x. map_if (user_by_id id) (λ _. v) (users.rows x))
                    (end_sessions-users t id o t1 ended)),
      )

  update_user-IsAdmin :
      (t : Tables T S) (id : ℕ) (is_admin : Bool) (password : Text) (u : User) (t' : Tables T S)
      (current : ℕ)
      → (id == current && not is_admin) ≡ false
      → update_user users sessions crypto t id is_admin password ≡ ok (u, t')
      → IsAdmin current t
      → IsAdmin current t'
  unfolding IsAdmin
  update_user-IsAdmin t id is_admin password u t' current allowed h (w, found, role) =
      let (v, same_id, same_role, rows) = update_user-rows t id is_admin password u t' h in
      elim (Bool-cases (id == current)) [
        | inl own ↦
            let is_own : id ≡ current = (==_iff id current).0 own in
            let kept : is_admin ≡ true = ground arith in
            (
              v,
              ap (find? (user_by_id current)) rows
                  ∙ subst
                      (λ k.
                        find? (user_by_id current)
                          (map_if (user_by_id k) (λ _. v) (users.rows t.users))
                        ≡ some v)
                      (sym is_own)
                      (find?-map_if (user_by_id current) (λ _. v) (users.rows t.users)
                        (λ y hit. (==_iff v.id current).1 (same_id ∙ is_own)) found),
              same_role ∙ kept,
            )
        | inr other ↦ (
          w,
          ap (find? (user_by_id current)) rows
              ∙ (find?-map_if_ne (user_by_id id) (user_by_id current) (λ _. v) (users.rows t.users)
                    (λ y hit. (ground arith, ground arith))
                  ∙ found),
          role,
        )
      ]

  created_response-IsAdmin :
      (s : State T S) (r : Result AuthError (User × Tables T S)) (current : ℕ)
      → ((u : User) (t : Tables T S)
          → r ≡ ok (u, t)
          → users.rows t.users ≡ users.rows s.tables.users ++ u ∷ [])
      → IsAdmin current s.tables
      → IsAdmin current (created_response users sessions crypto s r).1.tables
  unfolding created_response IsAdmin
  created_response-IsAdmin s (err e) current k a = a
  created_response-IsAdmin s (ok (u, t)) current k (w, found, role) = (
    w,
    ap (find? (user_by_id current)) (k u t refl)
        ∙ (find?-append_none (user_by_id current) (users.rows s.tables.users) u ∙ rw found refl),
    role,
  )

  updated_response-tables :
      (s : State T S) (target : User) (req : UpdateRequest)
      (r : Result AuthError (User × Tables T S)) (Q : Tables T S → Type 0)
      → Q s.tables
      → ((u : User) (t : Tables T S) → r ≡ ok (u, t) → Q t)
      → Q (updated_response users sessions crypto s target req r).1.tables
  unfolding updated_response
  updated_response-tables s target req (err e) Q h k = h
  updated_response-tables s target req (ok (u, t)) Q h k =
      elim (Bool-cases (not (bool_eq target.is_admin u.is_admin) || not (is_empty req.password))) [
        | inl b ↦ rw b (k u t refl)
        | inr b ↦ rw b (k u t refl)
      ]

  update_target-tables :
      (s : State T S) (manages : Bool) (id : ℕ) (req : UpdateRequest) (r : Result AuthError User)
      (Q : Tables T S → Type 0)
      → Q s.tables
      → ((u : User) (t : Tables T S)
          → update_user users sessions crypto s.tables id req.is_admin req.password ≡ ok (u, t)
          → Q t)
      → Q (update_target users sessions crypto s manages id req r).1.tables
  unfolding update_target
  update_target-tables s manages id req (err e) Q h k = h
  update_target-tables s manages id req (ok target) Q h k =
      elim (Bool-cases
        (admin_managed manages target && not (bool_eq target.is_admin req.is_admin))) [
          | inl b ↦ rw b h
          | inr b ↦ rw b (updated_response-tables s target req _ Q h k)
        ]

  deleted_response-tables :
      (s : State T S) (id : ℕ) (r : Result AuthError (User × Tables T S)) (Q : Tables T S → Type 0)
      → Q s.tables
      → ((u : User) (t : Tables T S) → r ≡ ok (u, t) → Q t)
      → Q (deleted_response users sessions crypto s id r).1.tables
  unfolding deleted_response
  deleted_response-tables s id (err e) Q h k = h
  deleted_response-tables s id (ok (u, t)) Q h k = k u t refl

  handle_update_user-IsAdmin :
      (s : State T S) (manages : Bool) (current : User) (id : ℕ) (req : UpdateRequest)
      → IsAdmin current.id s.tables
      → IsAdmin current.id
          (handle_update_user users sessions crypto s manages current (some id) (some req)).1.tables
  unfolding handle_update_user
  handle_update_user-IsAdmin s manages current id req a =
      elim (Bool-cases (id == current.id && not req.is_admin)) [
        | inl own ↦ rw own a
        | inr allowed ↦ rw allowed (
            update_target-tables s manages id req _ (IsAdmin current.id) a λ u t h.
              update_user-IsAdmin s.tables id req.is_admin req.password u t current.id allowed h a)
      ]

  delete_user-IsAdmin :
      (t : Tables T S) (id : ℕ) (u : User) (t' : Tables T S) (me : ℕ)
      → (id == me) ≡ false
      → delete_user users sessions crypto t id ≡ ok (u, t')
      → IsAdmin me t
      → IsAdmin me t'
  unfolding IsAdmin
  delete_user-IsAdmin t id u t' me ne h (w, found, role) = (
    w,
    ap (find? (user_by_id me))
          (delete_user-rows users sessions crypto user_laws session_laws t id h)
        ∙ (find?-keep_if_ne (λ v. not (user_by_id id v)) (user_by_id me) (users.rows t.users)
              (λ v gone. ground arith)
            ∙ found),
    role,
  )

  handle_delete_user-IsAdmin :
      (s : State T S) (current : User) (id : ℕ)
      → IsAdmin current.id s.tables
      → IsAdmin current.id (handle_delete_user users sessions crypto s current (some id)).1.tables
  unfolding handle_delete_user
  handle_delete_user-IsAdmin s current id a = elim (Bool-cases (id == current.id)) [
    | inl own ↦ rw own a
    | inr other ↦ rw other (
        deleted_response-tables s id _ (IsAdmin current.id) a
          λ u t h. delete_user-IsAdmin s.tables id u t current.id other h a)
  ]

  -- One request by `current`.
  pub step : Bool → User → State T S → Request → State T S
  step manages current s (creates req) = (handle_create_user users sessions crypto s req).1
  step manages current s (updates id req) =
      (handle_update_user users sessions crypto s manages current id req).1
  step manages current s (deletes id) = (handle_delete_user users sessions crypto s current id).1

  pub run : Bool → User → State T S → List Request → State T S
  run manages current s [] = s
  run manages current s (r ∷ rs) = run manages current (step manages current s r) rs

  step-IsAdmin :
      (manages : Bool) (current : User) (s : State T S) (r : Request)
      → IsAdmin current.id s.tables
      → IsAdmin current.id (step manages current s r).tables
  unfolding step handle_create_user handle_update_user handle_delete_user
  step-IsAdmin manages current s (creates none) a = a
  step-IsAdmin manages current s (creates (some req)) a =
      created_response-IsAdmin s _ current.id
        (λ u t h.
          (create_user-NewAccount users sessions crypto user_laws s.tables req.username req.password
            req.is_admin u t h).1.rows)
        a
  step-IsAdmin manages current s (updates none req) a = a
  step-IsAdmin manages current s (updates (some id) none) a = a
  step-IsAdmin manages current s (updates (some id) (some req)) a =
      handle_update_user-IsAdmin s manages current id req a
  step-IsAdmin manages current s (deletes none) a = a
  step-IsAdmin manages current s (deletes (some id)) a = handle_delete_user-IsAdmin s current id a

  -- Over lawful tables, whatever requests to create, change and delete accounts an administrator
  -- makes, in whatever order and with whatever failures, their own account stays and stays an
  -- administrator.
  pub run-IsAdmin :
      (manages : Bool) (current : User) (s : State T S) (rs : List Request)
      → IsAdmin current.id s.tables
      → IsAdmin current.id (run manages current s rs).tables
  unfolding run
  run-IsAdmin manages current s [] a = a
  run-IsAdmin manages current s (r ∷ rs) a =
      run-IsAdmin manages current (step manages current s r) rs (step-IsAdmin manages current s r a)
