-- ===== src/Auth/AccessTokens/Accounts.antt =====
-- The account that an access token is accepted for is stored.
use mathlib.Core.Path.{subst}
use unit_management.Base.{
  ℕ, ◌≡◌, refl, sym, ◌∙◌, ap, Bool, true, false, Option, none, some, List, ==_iff, ==_refl, arith,
  map, find?, find?-holds, Result, ok, err, >>=-eq-ok,
}
use unit_management.Base.Among.{Among, Among-find?, Among-last, Among-map_if}
use unit_management.Text.{Text, text_eq, text_eq_iff}
use unit_management.Database.{Answer, done, duplicate, failed, Table, IsTable, first, first-rows}
use unit_management.Models.{Time, User, Group, UserGroup}
use unit_management.Auth.{AuthError, Tables, user_by_id}
use unit_management.Auth.Lookup.{KeptUser}
use unit_management.Auth.Oidc.{OidcIdentity}
use unit_management.Auth.Groups.{
  Directory, ensure_groups, replace_memberships, store_role, new_role, with_role, sync_oidc_groups,
}
use unit_management.Auth.Groups.Synced.{role_rows, store_role-rows}
use unit_management.Auth.Provisioning.{finished, is_subject, new_account, user_for_oidc_identity}
use unit_management.Auth.Provisioning.Attempts.{
  Provides, existing, created, user_for_oidc_identity-Provides,
}
use unit_management.Auth.AccessTokens.{
  Verified, Readings, State, Handled, found_user, remembered, synced_account, resolved,
  verified_account,
}

-- A stored account of the subject.
abbrev pub OwnedBy : Text → List User → User → Type 0
OwnedBy subject rows u = Among rows u × (u.oidc_subject ≡ some subject)

is_subject-eq :
    (subject : Text) (u : User) → is_subject subject u ≡ true → u.oidc_subject ≡ some subject
is_subject-eq subject u h = by_subject u.oidc_subject h
  where
    by_subject :
        (o : Option Text)
        → elim o [ none ↦ false | some s ↦ text_eq s subject ] ≡ true
        → o ≡ some subject
    by_subject none h = absurd (cc)
    by_subject (some s) h = ap some ((text_eq_iff s subject).0 h)

with_role-role_rows :
    (rows : List User) (user : User) (role : Option Bool)
    → Among rows user
    → Among (role_rows user.id role rows) (with_role user role)
unfolding with_role
with_role-role_rows rows user none h = h
with_role-role_rows rows user (some role) h =
    Among-map_if (user_by_id user.id) (λ u. record u { is_admin = role }) rows (==_refl user.id) h

with_role-subject :
    (user : User) (role : Option Bool) → (with_role user role).oidc_subject ≡ user.oidc_subject
unfolding with_role
with_role-subject user none = refl
with_role-subject user (some role) = refl

finished-ok :
    {A : Type 0} (o : Option (Result AuthError A)) {a : A} → finished o ≡ ok a → o ≡ some (ok a)
finished-ok none h = absurd (cc)
finished-ok (some r) h = ap some h

module _ {T S : Type 0} (users : Table T User) where
  Provides-OwnedBy :
      {t : Tables T S} {id : OidcIdentity} {u : User} {t' : Tables T S}
      → Provides users t id u t'
      → OwnedBy id.subject (users.rows t'.users) u
  unfolding new_account
  Provides-OwnedBy {t = t} {id = id} {u = u} (existing found same) = (
    subst (λ (t : Tables T S). Among (users.rows t.users) u) same
        (Among-find? (is_subject id.subject) (users.rows t.users) found),
    is_subject-eq id.subject u (find?-holds (is_subject id.subject) (users.rows t.users) found),
  )
  Provides-OwnedBy {u = u} (created name none_yet short new rows same) =
      (rw rows (Among-last _ u), ap (λ (x : User). x.oidc_subject) new)

module _ {T : Type 0} (users : Table T User) (laws : IsTable KeptUser users) where
  pub found_user-found :
      (t : T) (id : ℕ) (u : User)
      → found_user (first users t (user_by_id id)) ≡ ok u
      → Among (users.rows t) u × (u.id ≡ id)
  found_user-found t id u h = by_answer (first users t (user_by_id id)) refl h
    where
      by_answer :
          (a : Answer (Option User))
          → first users t (user_by_id id) ≡ a
          → found_user a ≡ ok u
          → Among (users.rows t) u × (u.id ≡ id)
      by_answer (done (some x)) e h =
          let same : x ≡ u = ground arith in
          let found : find? (user_by_id id) (users.rows t) ≡ some u =
            sym (first-rows users laws t (user_by_id id) (some x) e) ∙ ap some same in
          (
            Among-find? (user_by_id id) (users.rows t) found,
            (==_iff u.id id).0 (find?-holds (user_by_id id) (users.rows t) found),
          )
      by_answer (done none) e h = absurd (cc)
      by_answer duplicate e h = absurd (cc)
      by_answer failed e h = absurd (cc)

module _ {T S G M : Type 0} (users : Table T User) (groups : Table G Group)
    (memberships : Table M UserGroup) (by_name : List Group → List Group)
    (laws : IsTable KeptUser users) where
  -- The groups of a sign-in store the role that they grant with the account.
  sync-OwnedBy :
      (subject : Text) (d : Directory T S G M) (user : User) (id : OidcIdentity) (u : User)
      (joined : List Group) (d' : Directory T S G M)
      → sync_oidc_groups users groups memberships by_name d user id ≡ ok ((u, joined), d')
      → OwnedBy subject (users.rows d.tables.users) user
      → OwnedBy subject (users.rows d'.tables.users) u
  unfolding sync_oidc_groups
  sync-OwnedBy subject d user id u joined d' h (stored, named) =
      let (ensured, e, h1) = >>=-eq-ok (ensure_groups groups by_name d.groups id.groups) _ h in
      let (members, e', h2) =
        >>=-eq-ok
          (replace_memberships memberships d.memberships user.id
            (map (λ (g : Group). g.id) ensured.0))
          _ h1 in
      let role = new_role user id.is_admin in
      let (accounts, e'', h3) = >>=-eq-ok (store_role users d.tables.users user role) _ h2 in
      let same : (
        (with_role user role, ensured.0),
        record {
          tables = record d.tables { users = accounts };
          groups = ensured.1;
          memberships = members;
        },
      )
          ≡ ((u, joined), d') =
        ground arith in
      subst
        (λ (x : (User × List Group) × Directory T S G M).
          OwnedBy subject (users.rows x.1.tables.users) x.0.0)
        same
        (
          subst (λ rows. Among rows (with_role user role))
              (sym (store_role-rows users laws d.tables.users user role e''))
              (with_role-role_rows (users.rows d.tables.users) user role stored),
          with_role-subject user role ∙ named,
        )

  -- What an answer of the path of the access tokens says of the tables that it leaves, for accounts
  -- that a predicate selects.
  unfoldable pub Answers : (List User → User → Type 0) → Handled × State T S G M → User → Type 0
  Answers Q (r, s) u = r ≡ some (ok u) → Q (users.rows s.directory.tables.users) u

  synced_account-OwnedBy :
      (subject : Text) (s : State T S G M) (key : ℕ) (expiry : Time) (clock : Readings)
      (d : Directory T S G M) (r : Result AuthError ((User × List Group) × Directory T S G M))
      (u : User)
      → ((x : User) (joined : List Group) (d' : Directory T S G M)
          → r ≡ ok ((x, joined), d')
          → OwnedBy subject (users.rows d'.tables.users) x)
      → Answers
          (OwnedBy subject)
          (synced_account users groups memberships by_name s key expiry clock d r)
          u
  unfolding Answers synced_account remembered
  synced_account-OwnedBy subject s key expiry clock d (err e) u stored h = absurd (cc)
  synced_account-OwnedBy subject s key expiry clock d (ok ((x, joined), d')) u stored h =
      let same : x ≡ u = ground arith in
      subst (OwnedBy subject (users.rows d'.tables.users)) same (stored x joined d' refl)

  resolved-OwnedBy :
      (subject : Text) (s : State T S G M) (key : ℕ) (clock : Readings) (v : Verified)
      (r : Result AuthError (User × Tables T S)) (u : User)
      → ((x : User) (t : Tables T S) → r ≡ ok (x, t) → OwnedBy subject (users.rows t.users) x)
      → Answers (OwnedBy subject) (resolved users groups memberships by_name s key clock v r) u
  unfolding Answers resolved remembered
  resolved-OwnedBy subject s key clock v (err e) u stored h = absurd (cc)
  resolved-OwnedBy subject s key clock v (ok (x, t)) u stored h =
      by_claim v.has_groups (stored x t refl) h
    where
      d : Directory T S G M
      d = record s.directory { tables = t }

      by_claim :
          (b : Bool)
          → OwnedBy subject (users.rows t.users) x
          → Answers
              (OwnedBy subject)
              (elim b [
                | true ↦
                    synced_account users groups memberships by_name s key v.expiry clock d
                      (sync_oidc_groups users groups memberships by_name d x v.identity)
                | false ↦ remembered users groups memberships by_name s key v.expiry clock d x
              ])
              u
      by_claim false here = λ h.
          let same : x ≡ u = ground arith in subst (OwnedBy subject (users.rows t.users)) same here
      by_claim true here =
          synced_account-OwnedBy subject s key v.expiry clock d
            (sync_oidc_groups users groups memberships by_name d x v.identity) u
            λ y joined d' e. sync-OwnedBy subject d x v.identity y joined d' e here

  pub verified_account-OwnedBy :
      (s : State T S G M) (key : ℕ) (clock : Readings) (bytes : ℕ → Option (ℕ × ℕ × ℕ))
      (v : Verified) (u : User)
      → Answers
          (OwnedBy v.identity.subject)
          (verified_account users groups memberships by_name s key clock bytes (some v))
          u
  unfolding Answers verified_account
  verified_account-OwnedBy s key clock bytes v u =
      resolved-OwnedBy v.identity.subject s key clock v
        (finished (user_for_oidc_identity users s.directory.tables v.identity bytes)) u
        λ x t e. Provides-OwnedBy users (
          user_for_oidc_identity-Provides users laws s.directory.tables v.identity bytes x t
            (finished-ok (user_for_oidc_identity users s.directory.tables v.identity bytes) e))
