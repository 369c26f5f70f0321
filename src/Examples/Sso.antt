-- ===== src/Examples/Sso.antt =====
-- A sign-in at a provider, in memory.
use mathlib.Core.Path.{subst}
use unit_management.Base.{
  ◌≤◌, ◌≡◌, refl, true, false, none, some, List, [], ◌∷◌, arith, ok, is_some, Bool-cases, inl, inr,
  count_if,
}
use unit_management.Text.{text_eq, text_eq_iff}
use unit_management.Text.Order.{text_lt, sort_texts, insert_text, compact}
use unit_management.Database.{Table, IsTable, IsOrder, IsUnique}
use unit_management.Database.Memory.{keyed, keyed-IsTable, keyed-IsUnique}
use unit_management.Models.{User, Session, Group, UserGroup}
use unit_management.Auth.Oidc.{
  OidcIdentity, OidcFlow, OidcProvider, IdToken, exchange, asserted, granted_role,
  manages_admin_role, groups, token_groups, parse_groups, group_names, nonempty,
}
use unit_management.Auth.Oidc.Names.{Checked, exchange-Checked}
use unit_management.Auth.Groups.{
  Directory, group_by_name, sync_oidc_groups, ensure_groups, find_groups, create_missing,
  create_groups, insert_groups, missing, replace_memberships, leaving, join_groups, store_role,
  new_role, with_role,
}
use unit_management.Auth.Groups.Members.{KeptMember, same_member}
use unit_management.Auth.Groups.Names.{KeptGroup, same_group, UniqueNames}
use unit_management.Auth.Groups.Synced.{Synced, sync_oidc_groups-Synced}
use unit_management.Auth.Provisioning.{user_for_oidc_identity}
use unit_management.Auth.Provisioning.Attempts.{user_for_oidc_identity-ends}
use unit_management.Auth.AccessTokens.{cached}
use unit_management.Auth.AccessTokens.Cache.{Store, stored, latest_store, counts_at, cached-stored}
use unit_management.Examples.Accounts.{user_table, user_table-IsTable, alice}

abbrev pub group_table : Table (List Group) Group
group_table = keyed (λ s r. record r { id = 7 }) same_group

pub group_table-IsTable : IsTable KeptGroup group_table
group_table-IsTable = keyed-IsTable (λ s r. record r { id = 7 }) same_group KeptGroup (λ s r. refl)

group_table-IsUnique : IsUnique same_group group_table
group_table-IsUnique = keyed-IsUnique (λ s r. record r { id = 7 }) same_group

abbrev pub member_table : Table (List UserGroup) UserGroup
member_table = keyed (λ s r. r) same_member

member_table-IsTable : IsTable KeptMember member_table
member_table-IsTable = keyed-IsTable (λ s r. r) same_member KeptMember (λ s r. refl)

member_table-IsUnique : IsUnique same_member member_table
member_table-IsUnique = keyed-IsUnique (λ s r. r) same_member

abbrev pub by_name : List Group → List Group
by_name gs = gs

by_name-IsOrder : IsOrder by_name
by_name-IsOrder = record { counts = λ p rs. refl; alone = λ p rs le. refl }

abbrev identity : OidcIdentity
identity = record {
  issuer = b'i' ∷ [];
  subject = b's' ∷ [];
  preferred_username = b'e' ∷ [];
  email = [];
  groups = (b'a' ∷ []) ∷ (b'b' ∷ []) ∷ [];
  is_admin = some false;
}

-- The account 1 is a member of the group 5, which the provider does not send.
abbrev directory : Directory (List User) (List Session) (List Group) (List UserGroup)
directory = record {
  tables = record { users = alice ∷ []; sessions = [] };
  groups = record { id = 4; name = b'b' ∷ [] } ∷ record { id = 5; name = b'c' ∷ [] } ∷ [];
  memberships = record { user_id = 1; group_id = 5 } ∷ record { user_id = 2; group_id = 5 } ∷ [];
}

abbrev joined : List Group
joined = record { id = 4; name = b'b' ∷ [] } ∷ record { id = 7; name = b'a' ∷ [] } ∷ []

abbrev synced_directory : Directory (List User) (List Session) (List Group) (List UserGroup)
synced_directory = record {
  tables = record { users = record alice { is_admin = false } ∷ []; sessions = [] };
  groups =
      record { id = 4; name = b'b' ∷ [] }
      ∷ record { id = 5; name = b'c' ∷ [] }
      ∷ record { id = 7; name = b'a' ∷ [] }
      ∷ [];
  memberships =
      record { user_id = 2; group_id = 5 }
      ∷ record { user_id = 1; group_id = 4 }
      ∷ record { user_id = 1; group_id = 7 }
      ∷ [];
}

synced_so :
    sync_oidc_groups user_table group_table member_table by_name directory alice identity
    ≡ ok ((record alice { is_admin = false }, joined), synced_directory)
unfolding sync_oidc_groups ensure_groups find_groups create_missing create_groups insert_groups
    missing replace_memberships leaving join_groups store_role new_role with_role text_eq
synced_so = refl

unique_names : UniqueNames directory.groups
unfolding text_eq
unique_names name = elim (Bool-cases (text_eq (b'b' ∷ []) name)) [
  | inr other ↦ ground arith
  | inl here ↦
      subst (λ n. count_if (group_by_name n) directory.groups ≤ 1)
        ((text_eq_iff (b'b' ∷ []) name).0 here) (omega arith)
]

sync_oidc_groups-Synced_example :
    Synced user_table group_table member_table by_name directory alice identity
      (record alice { is_admin = false })
      joined
      synced_directory
unfolding text_eq
sync_oidc_groups-Synced_example =
    sync_oidc_groups-Synced user_table group_table member_table by_name user_table-IsTable
      group_table-IsTable member_table-IsTable by_name-IsOrder group_table-IsUnique
      member_table-IsUnique directory alice identity (record alice { is_admin = false }) joined
      synced_directory synced_so (refl, (refl, tt)) unique_names

-- A provider whose code is the ID token.
abbrev id_token : IdToken
id_token = record {
  issuer = b'i' ∷ [];
  subject = b's' ∷ [];
  nonce = b'n' ∷ [];
  claims = some (b'e' ∷ [], []);
  groups_claim = some (
      some (record {
        as_list = some ((b'b' ∷ []) ∷ [] ∷ (b'a' ∷ []) ∷ (b'b' ∷ []) ∷ []);
        as_text = none;
      }));
}

abbrev provider : OidcProvider
provider = record {
  admin_group = b'x' ∷ [];
  exchange = λ code verifier. some (some code);
  verify = λ raw. some id_token;
  has_userinfo = false;
  userinfo = none;
}

abbrev flow : OidcFlow
flow = record { state = b'z' ∷ []; nonce = b'n' ∷ []; verifier = b'v' ∷ [] }

exchanged : exchange provider flow (b'z' ∷ []) (b'c' ∷ []) ≡ ok identity
unfolding exchange asserted granted_role manages_admin_role groups token_groups parse_groups
    group_names nonempty text_eq sort_texts insert_text text_lt compact
exchanged = refl

exchange-Checked_example : Checked provider flow (b'z' ∷ []) identity
exchange-Checked_example = exchange-Checked provider flow (b'z' ∷ []) (b'c' ∷ []) identity exchanged

user_for_oidc_identity-ends_example :
    is_some (
      user_for_oidc_identity user_table directory.tables identity (λ attempt. some (attempt, 2, 3)))
    ≡ true
user_for_oidc_identity-ends_example =
    user_for_oidc_identity-ends user_table directory.tables identity
      (λ attempt. some (attempt, 2, 3))

abbrev stores : List Store
stores =
    record { key = 3; user_id = 1; token_expiry = 50; stored_at = 20; pruned_at = 21 }
    ∷ record { key = 3; user_id = 2; token_expiry = 90; stored_at = 10; pruned_at = 11 }
    ∷ []

cached-stored_example : cached (stored stores) 3 40 ≡ counts_at 40 (latest_store 3 stores)
cached-stored_example =
    cached-stored stores 3 40 (omega arith, omega arith, (omega arith, omega arith, tt))
