-- ===== src/Auth/Groups.antt =====
-- internal/auth/oidc.go: the groups and their members, which follow the
-- groups that the provider sends at a sign-in. An insertion with ON CONFLICT DO NOTHING passes over
-- a row that the unique index refuses.
pub mod Names
pub mod Members
pub mod Synced
use unit_management.Base.{
  ℕ, Bool, true, false, not, ◌&&◌, ◌||◌, Option, none, some, List, [], ◌∷◌, ◌==◌, if◌then◌else◌,
  any, map, keep_if, length, Result, ok, err, ◌>>=◌,
}
use unit_management.Text.{Text, text_eq}
use unit_management.Database.{Answer, done, duplicate, failed, Table}
use unit_management.Models.{User, Session, Group, UserGroup}
use unit_management.Auth.{AuthError, internal, Tables, wrap, user_by_id}
use unit_management.Auth.Oidc.{OidcIdentity}

-- The tables of the accounts with those of the groups and of the memberships.
pub record Directory (T S G M : Type 0) : Type 0 where
  pub tables : Tables T S
  pub groups : G
  pub memberships : M

abbrev pub group_by_name : Text → Group → Bool
group_by_name name g = text_eq g.name name

abbrev pub group_by_id : ℕ → Group → Bool
group_by_id id g = g.id == id

abbrev pub group_named : List Text → Group → Bool
group_named names g = any (text_eq g.name) names

abbrev pub member_of : ℕ → ℕ → UserGroup → Bool
member_of user_id group_id m = m.user_id == user_id && m.group_id == group_id

-- The names that no group found has.
unfoldable pub missing : List Group → List Text → List Text
missing found names = keep_if (λ name. not (any (group_by_name name) found)) names

abbrev pub passed_over : {T R : Type 0} → T → Answer (T × R) → Result AuthError T
passed_over t (done (t', r)) = ok t'
passed_over t duplicate = ok t
passed_over t failed = err internal

-- `by_name` is the database's ORDER BY name.
module _ {G : Type 0} (groups : Table G Group) (by_name : List Group → List Group) where
  unfoldable pub insert_groups : G → List Text → Result AuthError G
  insert_groups g [] = ok g
  insert_groups g (name ∷ names) = do
    g' ← passed_over g (groups.insert g (record { id = 0; name = name }))
    insert_groups g' names

  -- GORM refuses to create the rows of an empty slice (ErrEmptySlice).
  unfoldable pub create_groups : G → List Text → Result AuthError G
  create_groups g [] = err internal
  create_groups g (name ∷ names) = insert_groups g (name ∷ names)

  unfoldable pub find_groups : G → List Text → Result AuthError (List Group)
  find_groups g names = do found ← wrap (groups.select g (group_named names)); ok (by_name found)

  unfoldable pub create_missing : G → List Text → List Group → Result AuthError (List Group × G)
  create_missing g names found = do
    g' ← create_groups g (missing found names)
    found' ← find_groups g' names
    ok (found', g')

  -- ensureGroups
  unfoldable pub ensure_groups : G → List Text → Result AuthError (List Group × G)
  ensure_groups g [] = ok ([], g)
  ensure_groups g (name ∷ names) = do
    found ← find_groups g (name ∷ names)
    if length found == length (name ∷ names)
        then ok (found, g)
        else create_missing g (name ∷ names) found

module _ {M : Type 0} (memberships : Table M UserGroup) where
  -- The memberships that a user leaves: those of other groups, or all.
  unfoldable pub leaving : ℕ → List ℕ → UserGroup → Bool
  leaving user_id [] m = m.user_id == user_id
  leaving user_id (id ∷ ids) m = m.user_id == user_id && not (any (λ i. i == m.group_id) (id ∷ ids))

  unfoldable pub join_groups : M → ℕ → List ℕ → Result AuthError M
  join_groups m user_id [] = ok m
  join_groups m user_id (id ∷ ids) = do
    m' ← passed_over m (memberships.insert m (record { user_id = user_id; group_id = id }))
    join_groups m' user_id ids

  unfoldable pub replace_memberships : M → ℕ → List ℕ → Result AuthError M
  replace_memberships m user_id ids = do
    left ← wrap (memberships.delete m (leaving user_id ids))
    join_groups left.0 user_id ids

abbrev pub bool_eq : Bool → Bool → Bool
bool_eq true b = b
bool_eq false b = not b

-- The role that the account changes to, if it changes.
unfoldable pub new_role : User → Option Bool → Option Bool
new_role user none = none
new_role user (some granted) = if bool_eq user.is_admin granted then none else some granted

unfoldable pub with_role : User → Option Bool → User
with_role user none = user
with_role user (some role) = record user { is_admin = role }

module _ {T : Type 0} (users : Table T User) where
  unfoldable pub store_role : T → User → Option Bool → Result AuthError T
  store_role t user none = ok t
  store_role t user (some role) = do
    stored ← wrap (users.update t (user_by_id user.id) (λ u. record u { is_admin = role }))
    ok stored.0

module _ {T S G M : Type 0} (users : Table T User) (groups : Table G Group)
    (memberships : Table M UserGroup) (by_name : List Group → List Group) where
  -- Service.syncOIDCGroups: the user with the new role and its groups; the tables are new only if the
  -- transaction succeeds.
  unfoldable pub sync_oidc_groups :
      Directory T S G M
      → User
      → OidcIdentity
      → Result AuthError ((User × List Group) × Directory T S G M)
  sync_oidc_groups d user id = do
    ensured ← ensure_groups groups by_name d.groups id.groups
    members ← replace_memberships memberships d.memberships user.id (map (λ g. g.id) ensured.0)
    accounts ← store_role users d.tables.users user (new_role user id.is_admin)
    ok (
      (with_role user (new_role user id.is_admin), ensured.0),
      record {
        tables = record d.tables { users = accounts };
        groups = ensured.1;
        memberships = members;
      },
    )
