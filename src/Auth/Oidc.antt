-- ===== src/Auth/Oidc.antt =====
-- internal/auth/oidc.go: the identity that an OpenID Connect provider asserts, the groups that it
-- sends, and the checks of the authorization code flow. The provider (its token endpoint, the
-- verification of its ID tokens, its userinfo endpoint) and encoding/json are arguments.
pub mod Names
use unit_management.Base.{
  ℕ, Bool, true, false, not, ◌&&◌, ◌||◌, Option, none, some, List, [], ◌∷◌, if◌then◌else◌, keep_if,
  any, is_some, Result, ok, err, ◌>>=◌, ◌>>◌, guard, or_err,
}
use unit_management.Text.{Text, text_eq, is_empty}
use unit_management.Text.Order.{sort_texts, compact}

pub record OidcIdentity : Type 0 where
  pub issuer : Text
  pub subject : Text
  pub preferred_username : Text
  pub email : Text
  pub groups : List Text
  pub is_admin : Option Bool

-- OIDCFlow
pub record OidcFlow : Type 0 where
  pub state : Text
  pub nonce : Text
  pub verifier : Text

pub data OidcError : Type 0 where
  state_mismatch exchange_failed no_id_token verify_failed nonce_mismatch : OidcError
  claims_failed userinfo_failed invalid_groups : OidcError

-- A groups claim as JSON: what json.Unmarshal makes of it as a list of strings, nil for null, and as
-- a string; none for an error.
pub record RawGroups : Type 0 where
  pub as_list : Option (List Text)
  pub as_text : Option Text

unfoldable pub group_names : Option (List Text) → Option Text → Result OidcError (List Text)
group_names (some groups) text = ok groups
group_names none (some group) = ok (group ∷ [])
group_names none none = err invalid_groups

-- parseGroups
unfoldable pub parse_groups : RawGroups → Result OidcError (List Text)
parse_groups raw = do
  groups ← group_names raw.as_list raw.as_text
  ok (compact (sort_texts (keep_if (λ g. not (is_empty g)) groups)))

-- A verified ID token; the claims are none where they do not decode.
pub record IdToken : Type 0 where
  pub issuer : Text
  pub subject : Text
  pub nonce : Text
  pub claims : Option (Text × Text)
  pub groups_claim : Option (Option RawGroups)

-- The configuration of OIDCProvider and the provider: the ID token of a code and a verifier, if the
-- exchange succeeds and the response has one; the verification of an ID token; whether there is a
-- userinfo endpoint, and what it answers.
pub record OidcProvider : Type 0 where
  pub admin_group : Text
  pub exchange : Text → Text → Option (Option Text)
  pub verify : Text → Option IdToken
  pub has_userinfo : Bool
  pub userinfo : Option (Option (Option RawGroups))

-- OIDCProvider.ManagesAdminRole, where none stands for nil
unfoldable pub manages_admin_role : Option OidcProvider → Bool
manages_admin_role none = false
manages_admin_role (some p) = not (is_empty p.admin_group)

unfoldable pub claimed_groups : Option RawGroups → Result OidcError (List Text)
claimed_groups none = ok []
claimed_groups (some raw) = parse_groups raw

unfoldable pub userinfo_groups : OidcProvider → Result OidcError (List Text)
userinfo_groups p =
    if p.has_userinfo
    then (do
      info ← or_err p.userinfo userinfo_failed
      claim ← or_err info claims_failed
      claimed_groups claim)
    else ok []

unfoldable pub token_groups : OidcProvider → Option RawGroups → Result OidcError (List Text)
token_groups p none = userinfo_groups p
token_groups p (some raw) = parse_groups raw

-- OIDCProvider.groups
unfoldable pub groups : OidcProvider → IdToken → Result OidcError (List Text)
groups p token = do claim ← or_err token.groups_claim claims_failed; token_groups p claim

unfoldable pub granted_role : OidcProvider → List Text → Option Bool
granted_role p groups =
    if manages_admin_role (some p) then some (any (text_eq p.admin_group) groups) else none

unfoldable pub nonempty : Text → Result OidcError Text
nonempty [] = err no_id_token
nonempty (c ∷ cs) = ok (c ∷ cs)

unfoldable pub asserted : OidcProvider → IdToken → Text × Text → List Text → OidcIdentity
asserted p token claims names = record {
  issuer = token.issuer;
  subject = token.subject;
  preferred_username = claims.0;
  email = claims.1;
  groups = names;
  is_admin = granted_role p names;
}

-- OIDCProvider.Exchange
unfoldable pub exchange : OidcProvider → OidcFlow → Text → Text → Result OidcError OidcIdentity
exchange p flow state code = do
  guard (not (is_empty flow.state) && text_eq state flow.state) state_mismatch
  response ← or_err (p.exchange code flow.verifier) exchange_failed
  extra ← or_err response no_id_token
  raw ← nonempty extra
  token ← or_err (p.verify raw) verify_failed
  guard (text_eq token.nonce flow.nonce) nonce_mismatch
  claims ← or_err token.claims claims_failed
  names ← groups p token
  ok (asserted p token claims names)
