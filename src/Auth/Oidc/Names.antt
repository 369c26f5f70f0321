-- ===== src/Auth/Oidc/Names.antt =====
-- What a sign-in at the provider has been checked for, and the groups that it brings.
use mathlib.Core.Path.{subst}
use unit_management.Base.{
  ◌≡◌, refl, sym, ◌∙◌, ap, inl, inr, Bool, false, not, ◌&&◌, Option, none, some, List, [], ◌∷◌,
  arith, if◌then◌else◌, keep_if, any, Bool-cases, ok, ◌>>=◌, >>=-eq-ok, guard, guard-true, or_err,
  or_err-ok,
}
use unit_management.Text.{Text, text_eq, text_eq_iff, is_empty}
use unit_management.Text.Order.{
  sort_texts, compact, Strict, sort_texts-Ascending, compact-Strict, any-sort_texts, any-compact,
}
use unit_management.Auth.Oidc.{
  OidcIdentity, OidcFlow, OidcProvider, IdToken, RawGroups, group_names, parse_groups,
  claimed_groups, userinfo_groups, token_groups, groups, granted_role, nonempty, asserted, exchange,
  manages_admin_role, state_mismatch, exchange_failed, no_id_token, verify_failed, nonce_mismatch,
  claims_failed, userinfo_failed,
}

any-keep_if :
    {A : Type 0} (p q : A → Bool) (xs : List A) → any q (keep_if p xs) ≡ any (λ x. p x && q x) xs
any-keep_if p q [] = refl
any-keep_if p q (x ∷ xs) = ground (arith, any-keep_if p q xs)

-- The groups that parseGroups answers are the names that the claim lists, without the empty one,
-- each once and in ascending order.
pub parse_groups-names :
    (raw : RawGroups) (listed answer : List Text)
    → group_names raw.as_list raw.as_text ≡ ok listed
    → parse_groups raw ≡ ok answer
    → Strict answer × ((p : Text → Bool) → any p answer ≡ any (λ g. not (is_empty g) && p g) listed)
unfolding parse_groups
parse_groups-names raw listed answer known h =
    let kept = keep_if (λ g. not (is_empty g)) listed in
    let same : compact (sort_texts kept) ≡ answer = ground arith in
    (
      subst Strict same (compact-Strict (sort_texts kept) (sort_texts-Ascending kept)),
      λ p.
          ap (any p) (sym same)
          ∙ any-compact p (sort_texts kept)
          ∙ any-sort_texts p kept
          ∙ any-keep_if (λ g. not (is_empty g)) p listed,
    )

parse_groups-Strict :
    (raw : RawGroups) {answer : List Text} → parse_groups raw ≡ ok answer → Strict answer
unfolding parse_groups
parse_groups-Strict raw {answer} h =
    let (listed, known, _) = >>=-eq-ok (group_names raw.as_list raw.as_text) _ h in
    (parse_groups-names raw listed answer known h).0

claimed_groups-Strict :
    (claim : Option RawGroups) {answer : List Text}
    → claimed_groups claim ≡ ok answer
    → Strict answer
unfolding claimed_groups
claimed_groups-Strict none {answer} h =
    let same : [] ≡ answer = ground arith in subst Strict same tt
claimed_groups-Strict (some raw) h = parse_groups-Strict raw h

userinfo_groups-Strict :
    (p : OidcProvider) {answer : List Text} → userinfo_groups p ≡ ok answer → Strict answer
unfolding userinfo_groups
userinfo_groups-Strict p {answer} h = elim (Bool-cases p.has_userinfo) [
  | inr e ↦ let same : [] ≡ answer = ground arith in subst Strict same tt
  | inl e ↦
      let h' : (do
        info ← or_err p.userinfo userinfo_failed
        claim ← or_err info claims_failed
        claimed_groups claim)
          ≡ ok answer =
        ground arith in
      let (info, _, h1) = >>=-eq-ok (or_err p.userinfo userinfo_failed) _ h' in
      let (claim, _, h2) = >>=-eq-ok (or_err info claims_failed) _ h1 in
      claimed_groups-Strict claim h2
]

groups-Strict :
    (p : OidcProvider) (token : IdToken) {answer : List Text}
    → groups p token ≡ ok answer
    → Strict answer
unfolding groups token_groups
groups-Strict p token {answer} h =
    let (claim, _, h1) = >>=-eq-ok (or_err token.groups_claim claims_failed) _ h in
    by_claim claim h1
  where
    by_claim : (claim : Option RawGroups) → token_groups p claim ≡ ok answer → Strict answer
    by_claim none h = userinfo_groups-Strict p h
    by_claim (some raw) h = parse_groups-Strict raw h

-- What an identity that Exchange answers has been checked for.
pub record Checked (p : OidcProvider) (flow : OidcFlow) (state : Text) (id : OidcIdentity)
    : Type 0 where
  pub state_same : state ≡ flow.state
  pub state_set : is_empty flow.state ≡ false
  pub token : IdToken
  pub nonce_same : token.nonce ≡ flow.nonce
  pub raw : Text
  pub verified : p.verify raw ≡ some token
  pub subject_same : id.subject ≡ token.subject
  pub groups_sorted : Strict id.groups
  pub role :
      id.is_admin
      ≡ (if manages_admin_role (some p) then some (any (text_eq p.admin_group) id.groups) else none)

-- Exchange answers an identity only if the state is the flow's and not empty, and a verified ID
-- token of the provider asserts the subject and has the flow's nonce; its groups are in strictly
-- ascending order, and its role is the one that the admin group grants, where one is set.
pub exchange-Checked :
    (p : OidcProvider) (flow : OidcFlow) (state code : Text) (id : OidcIdentity)
    → exchange p flow state code ≡ ok id
    → Checked p flow state id
unfolding exchange granted_role asserted
exchange-Checked p flow state code id h =
    let (_, g1, h1) =
      >>=-eq-ok (guard (not (is_empty flow.state) && text_eq state flow.state) state_mismatch) _
        h in
    let (response, _, h2) =
      >>=-eq-ok (or_err (p.exchange code flow.verifier) exchange_failed) _ h1 in
    let (extra, _, h3) = >>=-eq-ok (or_err response no_id_token) _ h2 in
    let (raw, _, h4) = >>=-eq-ok (nonempty extra) _ h3 in
    let (token, v, h5) = >>=-eq-ok (or_err (p.verify raw) verify_failed) _ h4 in
    let (_, g2, h6) = >>=-eq-ok (guard (text_eq token.nonce flow.nonce) nonce_mismatch) _ h5 in
    let (claims, _, h7) = >>=-eq-ok (or_err token.claims claims_failed) _ h6 in
    let (names, named, h8) = >>=-eq-ok (groups p token) _ h7 in
    let e : asserted p token claims names ≡ id = ground arith in
    let same_state =
      guard-true (not (is_empty flow.state) && text_eq state flow.state) state_mismatch g1 in
    let same_nonce = guard-true (text_eq token.nonce flow.nonce) nonce_mismatch g2 in
    subst (Checked p flow state) e (record {
      state_same = (text_eq_iff state flow.state).0 (ground arith);
      state_set = ground arith;
      token = token;
      nonce_same = (text_eq_iff token.nonce flow.nonce).0 same_nonce;
      raw = raw;
      verified = or_err-ok (p.verify raw) verify_failed v;
      subject_same = refl;
      groups_sorted = groups-Strict p token named;
      role = refl;
    })
