-- ===== src/Auth/Accounts.antt =====
-- New accounts: CreateUser and EnsureAdmin.
use unit_management.Base.{
  ◌≡◌, ◌⊎◌, ◌≤◌, refl, sym, ap, ◌∙◌, inl, inr, Bool, true, false, some, List, [], ◌∷◌, ◌++◌, arith,
  ok, or_err, or_err-ok, Result-cases, Bool-cases, ltb, any, keep_if, length,
}
use unit_management.Text.{Text, is_empty, trim_space, rune_count}
use unit_management.Text.Trim.{trim_space-trim_space}
use unit_management.Database.{Table, IsTable}
use unit_management.Models.{User, Session}
use unit_management.Auth.{internal, Tables, Crypto, wrap, user_by_name}
use unit_management.Auth.Users.{
  normalize_username, validate_password, new_user, map_create_error, insert_user, create_user,
  has_admin, ensure_admin, first_admin,
}
use unit_management.Auth.Lookup.{KeptUser, wrap-eq-ok, map_create_error-eq-ok}

-- A username that the policy accepts, as it is stored.
pub record IsUsername (name : Text) : Type 0 where
  pub trimmed : trim_space name ≡ name
  pub not_empty : is_empty name ≡ false
  pub bounded : rune_count name ≤ 64

normalize_username-IsUsername :
    (username : Text) {name : Text} → normalize_username username ≡ ok name → IsUsername name
unfolding normalize_username
normalize_username-IsUsername username {name} h =
    let same : trim_space username ≡ name = ground arith in
    record {
      trimmed = ap trim_space (sym same) ∙ (trim_space-trim_space username ∙ same);
      not_empty = ground arith;
      bounded = ground arith;
    }

normalize_username-eq :
    (username : Text) {name : Text}
    → normalize_username username ≡ ok name
    → name ≡ trim_space username
unfolding normalize_username
normalize_username-eq username h = ground arith

any-append :
    {A : Type 0} (p : A → Bool) (xs : List A) (y : A) → p y ≡ true → any p (xs ++ y ∷ []) ≡ true
any-append p [] y h = ground arith
any-append p (x ∷ xs) y h = ground (arith, any-append p xs y)

module _ {T S : Type 0} (users : Table T User) (sessions : Table S Session) (crypto : Crypto)
    (user_laws : IsTable KeptUser users) where
  -- A new account: the only change of the tables, with the password's hash under a proper name.
  pub record NewAccount (t : Tables T S) (username password : Text) (is_admin : Bool) (u : User)
      (t' : Tables T S) : Type 0 where
    pub named : IsUsername u.username
    pub requested : u.username ≡ trim_space username
    pub hashed : crypto.hash_password password ≡ some u.password_hash
    pub role : u.is_admin ≡ is_admin
    pub rows : users.rows t'.users ≡ users.rows t.users ++ u ∷ []
    pub sessions_kept : t'.sessions ≡ t.sessions

  pub insert_user-NewAccount :
      (t : Tables T S) (username password : Text) (is_admin : Bool) (u : User) (t' : Tables T S)
      → insert_user users sessions crypto t username password is_admin ≡ ok (u, t')
      → NewAccount t username password is_admin u t'
  unfolding insert_user new_user
  insert_user-NewAccount t username password is_admin u t' h =
      elim (Result-cases (normalize_username username)) [
        | inr (e, bad) ↦ absurd (ground arith)
        | inl (name, named) ↦
            elim (Result-cases (or_err (crypto.hash_password password) internal)) [
              | inr (e, bad) ↦ absurd (ground arith)
              | inl (hash, hashed) ↦
                  elim (Result-cases
                    (map_create_error (users.insert t.users (new_user name hash is_admin)))) [
                      | inr (e, bad) ↦ absurd (ground arith)
                      | inl ((us, v), good) ↦
                          let (rows, kept) =
                            user_laws.insert-rows t.users _ us v (map_create_error-eq-ok _ good) in
                          let is_u : v ≡ u = ground arith in
                          let is_t : record t { users = us } ≡ t' = ground arith in
                          let same_name : name ≡ u.username =
                            ap (λ x. x.username) (sym kept ∙ is_u) in
                          record {
                            named =
                                rw (sym same_name) (normalize_username-IsUsername username named);
                            requested = sym same_name ∙ normalize_username-eq username named;
                            hashed =
                                or_err-ok (crypto.hash_password password) internal hashed
                                ∙ ap (λ x. some x.password_hash) (sym kept ∙ is_u);
                            role = ap (λ x. x.is_admin) (sym is_u ∙ kept);
                            rows =
                                ap (λ x. users.rows x.users) (sym is_t)
                                ∙ (rows ∙ ap (λ x. users.rows t.users ++ x ∷ []) is_u);
                            sessions_kept = ap (λ x. x.sessions) (sym is_t);
                          }
                    ]
            ]
      ]

  -- Over lawful tables, an account that CreateUser reports has a password that the policy accepts,
  -- and is the only change of the tables: under the name asked for, trimmed and of 1 to 64
  -- characters, with the password's hash and the role asked for.
  pub create_user-NewAccount :
      (t : Tables T S) (username password : Text) (is_admin : Bool) (u : User) (t' : Tables T S)
      → create_user users sessions crypto t username password is_admin ≡ ok (u, t')
      → (validate_password password ≡ ok tt) × NewAccount t username password is_admin u t'
  unfolding create_user
  create_user-NewAccount t username password is_admin u t' h =
      elim (Result-cases (validate_password password)) [
        | inr (e, bad) ↦ absurd (ground arith)
        | inl (_, valid) ↦
            (valid, insert_user-NewAccount t username password is_admin u t' (ground arith))
      ]

  admins-any :
      (rows : List User)
      → ltb 0 (length (keep_if (λ u. u.is_admin) rows)) ≡ any (λ u. u.is_admin) rows
  admins-any [] = refl
  admins-any (u ∷ rows) = ground (arith, admins-any rows)

  has_admin-any :
      (t : Tables T S) (b : Bool)
      → has_admin users sessions crypto t ≡ ok b
      → b ≡ any (λ u. u.is_admin) (users.rows t.users)
  unfolding has_admin
  has_admin-any t b h = elim (Result-cases (wrap (users.select t.users (λ u. u.is_admin)))) [
    | inr (e, bad) ↦ absurd (ground arith)
    | inl (us, good) ↦
        let read = user_laws.select-rows t.users _ us (wrap-eq-ok _ good) in
        let is_b : ltb 0 (length us) ≡ b = ground arith in
        sym is_b ∙ (ap (λ x. ltb 0 (length x)) read ∙ admins-any (users.rows t.users))
  ]

  first_admin-NewAccount :
      (t : Tables T S) (username password : Text) (b : Bool) (t' : Tables T S)
      → first_admin users sessions crypto t username password ≡ ok (b, t')
      → (b ≡ true) × ((u : User) × NewAccount t username password true u t')
  unfolding first_admin
  first_admin-NewAccount t username password b t' h = elim (Bool-cases (is_empty password)) [
    | inl bad ↦ absurd (ground arith)
    | inr _ ↦
        elim (Result-cases (wrap (users.select t.users (user_by_name (trim_space username))))) [
          | inr (e, bad) ↦ absurd (ground arith)
          | inl (taken, good) ↦ elim (Bool-cases (ltb 0 (length taken))) [
            | inl bad ↦ absurd (ground arith)
            | inr _ ↦
                elim (Result-cases (insert_user users sessions crypto t username password true)) [
                  | inr (e, bad) ↦ absurd (ground arith)
                  | inl ((u, t2), inserted) ↦ (
                    ground arith,
                    (u, insert_user-NewAccount t username password true u t' (ground arith)),
                  )
                ]
          ]
        ]
  ]

  -- Over lawful tables, when EnsureAdmin succeeds there is an administrator, and either there was
  -- one and nothing has changed, or there was none and the accounts are those from before with one
  -- new account.
  pub ensure_admin-any :
      (t : Tables T S) (username password : Text) (b : Bool) (t' : Tables T S)
      → ensure_admin users sessions crypto t username password ≡ ok (b, t')
      → (any (λ u. u.is_admin) (users.rows t'.users) ≡ true)
        × (((b ≡ false) × (t' ≡ t))
            ⊎ ((b ≡ true)
                × (any (λ u. u.is_admin) (users.rows t.users) ≡ false)
                × ((u : User) × NewAccount t username password true u t')))
  unfolding ensure_admin
  ensure_admin-any t username password b t' h =
      elim (Result-cases (has_admin users sessions crypto t)) [
        | inr (e, bad) ↦ absurd (ground arith)
        | inl (true, present) ↦
            let same : t ≡ t' = ground arith in
            (
              ap (λ x. any (λ u. u.is_admin) (users.rows x.users)) (sym same)
                  ∙ sym (has_admin-any t true present),
              inl (ground arith, sym same),
            )
        | inl (false, absent) ↦
            let (is_b, (u, new)) = first_admin-NewAccount t username password b t' (ground arith) in
            (
              ap (any (λ u. u.is_admin)) new.rows ∙ any-append _ (users.rows t.users) u new.role,
              inr (is_b, sym (has_admin-any t false absent), (u, new)),
            )
      ]
