-- ===== src/Auth/Groups/Synced.antt =====
-- After a sign-in the account has the groups, and the role, that the provider sends.
use mathlib.Core.Path.{subst}
use unit_management.Base.{
  ℕ, ◌≡◌, ◌≢◌, refl, sym, ◌∙◌, ap, inl, inr, Bool, true, false, Option, none, some, List, [], ◌∷◌,
  arith, ◌==◌, if◌then◌else◌, any, map, map_if, Bool-cases, ok, >>=-eq-ok,
}
use unit_management.Text.{Text, text_eq}
use unit_management.Text.Order.{NoRepeat}
use unit_management.Database.{Table, IsTable, IsOrder, IsUnique}
use unit_management.Models.{User, Group, UserGroup}
use unit_management.Auth.{wrap, user_by_id}
use unit_management.Auth.Lookup.{KeptUser, wrap-eq-ok}
use unit_management.Auth.Oidc.{OidcIdentity}
use unit_management.Auth.Groups.{
  Directory, group_by_name, ensure_groups, replace_memberships, new_role, with_role, store_role,
  sync_oidc_groups, bool_eq,
}
use unit_management.Auth.Groups.Members.{KeptMember, same_member, has, has-replace_memberships}
use unit_management.Auth.Groups.Names.{KeptGroup, same_group, UniqueNames, ensure_groups-names}

any-map :
    {A B : Type 0} (p : B → Bool) (f : A → B) (xs : List A)
    → any p (map f xs) ≡ any (λ x. p (f x)) xs
any-map p f [] = refl
any-map p f (x ∷ xs) = ground (arith, any-map p f xs)

abbrev pub role_or : Bool → Option Bool → Bool
role_or old none = old
role_or old (some granted) = granted

with_role-role :
    (user : User) (granted : Option Bool)
    → (with_role user (new_role user granted)).is_admin ≡ role_or user.is_admin granted
unfolding with_role new_role
with_role-role user none = refl
with_role-role user (some granted) = by_cases user granted
  where
    by_cases :
        (u : User) (g : Bool)
        → (with_role u (if bool_eq u.is_admin g then none else some g)).is_admin ≡ g
    by_cases u g = elim (Bool-cases (bool_eq u.is_admin g)) [
      | inr e ↦ rw e refl
      | inl e ↦ rw e (same u.is_admin g e)
    ]
      where
        same : (a b : Bool) → bool_eq a b ≡ true → a ≡ b
        same true b h = sym h
        same false b h = ground arith

-- The rows of the accounts after a change of a role.
abbrev pub role_rows : ℕ → Option Bool → List User → List User
role_rows id none rows = rows
role_rows id (some role) rows = map_if (user_by_id id) (λ u. record u { is_admin = role }) rows

module _ {T : Type 0} (users : Table T User) (user_laws : IsTable KeptUser users) where
  pub store_role-rows :
      (t : T) (user : User) (role : Option Bool) {t' : T}
      → store_role users t user role ≡ ok t'
      → users.rows t' ≡ role_rows user.id role (users.rows t)
  unfolding store_role
  store_role-rows t user none {t'} h = let same : t ≡ t' = ground arith in ap users.rows (sym same)
  store_role-rows t user (some role) {t'} h =
      let (stored, e, h') =
        >>=-eq-ok (wrap (users.update t (user_by_id user.id) (λ u. record u { is_admin = role }))) _
          h in
      let same : stored.0 ≡ t' = ground arith in
      ap users.rows (sym same) ∙ (user_laws.update-rows t _ _ stored.0 stored.1 (wrap-eq-ok _ e)).0

module _ {T S G M : Type 0} (users : Table T User) (groups : Table G Group)
    (memberships : Table M UserGroup) (by_name : List Group → List Group) where
  -- What the user and the tables are after the groups of an identity have been applied to a user.
  pub record Synced (d : Directory T S G M) (user : User) (id : OidcIdentity) (user' : User)
      (answer : List Group) (d' : Directory T S G M) : Type 0 where
    pub names : (name : Text) → any (group_by_name name) answer ≡ any (text_eq name) id.groups
    pub member :
        (g : ℕ) → has memberships d'.memberships user.id g ≡ any (λ (x : Group). x.id == g) answer
    pub others :
        (u g : ℕ)
        → u ≢ user.id
        → has memberships d'.memberships u g ≡ has memberships d.memberships u g
    pub role : user'.is_admin ≡ role_or user.is_admin id.is_admin
    pub stored :
        users.rows d'.tables.users
        ≡ role_rows user.id (new_role user id.is_admin) (users.rows d.tables.users)
    pub sessions_same : d'.tables.sessions ≡ d.tables.sessions

  module _ (user_laws : IsTable KeptUser users) (group_laws : IsTable KeptGroup groups)
      (member_laws : IsTable KeptMember memberships) (order : IsOrder by_name)
      (unique_groups : IsUnique same_group groups)
      (unique_members : IsUnique same_member memberships) where
    -- Over lawful tables with the indexes on group names and memberships, in which no two groups
    -- have one name, whenever syncOIDCGroups succeeds with groups that do not repeat, the answered
    -- groups have the provider's names, the account is a member of exactly these, the memberships
    -- of other accounts are as before, and the role that the provider grants is stored and no
    -- session has changed.
    pub sync_oidc_groups-Synced :
        (d : Directory T S G M) (user : User) (id : OidcIdentity) (user' : User)
        (answer : List Group) (d' : Directory T S G M)
        → sync_oidc_groups users groups memberships by_name d user id ≡ ok ((user', answer), d')
        → NoRepeat id.groups
        → UniqueNames (groups.rows d.groups)
        → Synced d user id user' answer d'
    unfolding sync_oidc_groups
    sync_oidc_groups-Synced d user id user' answer d' h apart u =
        let (ensured, e, h1) = >>=-eq-ok (ensure_groups groups by_name d.groups id.groups) _ h in
        let (members, e', h2) =
          >>=-eq-ok
            (replace_memberships memberships d.memberships user.id (map (λ g. g.id) ensured.0)) _
            h1 in
        let (accounts, e'', h3) =
          >>=-eq-ok (store_role users d.tables.users user (new_role user id.is_admin)) _ h2 in
        let membership =
          has-replace_memberships memberships member_laws unique_members d.memberships user.id
            (map (λ g. g.id) ensured.0) members e' in
        let end : Directory T S G M = record {
          tables = record d.tables { users = accounts };
          groups = ensured.1;
          memberships = members;
        } in
        let same : ◌≡◌ {A = (User × List Group) × Directory T S G M}
            ((with_role user (new_role user id.is_admin), ensured.0), end) ((user', answer), d') =
          ground arith in
        subst (λ (x : (User × List Group) × Directory T S G M). Synced d user id x.0.0 x.0.1 x.1)
          same
          (record {
            names =
                ensure_groups-names groups by_name group_laws order unique_groups d.groups id.groups
                  ensured.0 ensured.1 e apart u;
            member = λ g.
                membership user.id g
                ∙ ground arith
                ∙ any-map (λ i. i == g) (λ (x : Group). x.id) ensured.0;
            others = λ v g other. membership v g ∙ ground arith;
            role = with_role-role user id.is_admin;
            stored =
                store_role-rows users user_laws d.tables.users user (new_role user id.is_admin) e'';
            sessions_same = refl;
          })
