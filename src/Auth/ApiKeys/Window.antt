-- ===== src/Auth/ApiKeys/Window.antt =====
-- The tokens of API keys: what stands behind one that is accepted, and their end.
use mathlib.Core.Path.{subst}
use unit_management.Base.{
  ℕ, ◌+◌, ◌≤◌, ◌≡◌, ◌≢◌, refl, sym, ◌∙◌, ap, inl, inr, Bool, true, not, ◌&&◌, Option, none, some,
  List, [], ◌∷◌, arith, ◌==◌, ltb, Bool-cases, Option-cases, find?, keep_if, count_if, Result, ok,
  err, guard, guard-true, >>=-eq-ok, or_err, or_err-ok,
}
use unit_management.Text.{Text}
use unit_management.Database.{Table, IsTable, first, first-rows}
use unit_management.Models.{Uuid, Time, minute, hour, User, Session, ApiKey}
use unit_management.Auth.{AuthError, invalid_session, Tables, wrap, user_by_id}
use unit_management.Auth.Lookup.{KeptUser, wrap-eq-ok, get_user-ok}
use unit_management.Auth.ApiKeys.{
  min_api_key_bits, api_key_clock_skew, Claims, Jwt, ApiKeyError, strong_key,
  parse_api_key_public_key, account_error, key_by_id, only_key, lifetime_ok, checked_key, key_error,
  by_key, user_for_api_key, delete_api_key, deleted_key,
}

-- An API key is stored as it is given; ValidateWithLeeway refuses a time too far before the issue or
-- after the expiry.
abbrev pub KeptKey : ApiKey → ApiKey → Type 0
KeptKey r r' = r' ≡ r

pub record IsJwt {K : Type 0} (jwt : Jwt K) : Type 0 where
  pub issued :
      (c : Claims) (now leeway i : ℕ)
      → jwt.validate c now leeway ≡ true
      → c.issued_at ≡ some i
      → i ≤ now + leeway
  pub expires :
      (c : Claims) (now leeway e : ℕ)
      → jwt.validate c now leeway ≡ true
      → c.expiry ≡ some e
      → now ≤ e + leeway

lifetime_ok-times :
    (c : Claims)
    → lifetime_ok c ≡ true
    → (i : Time) × (e : Time) × (c.issued_at ≡ some i) × (c.expiry ≡ some e) × (e ≤ i + hour)
unfolding lifetime_ok
lifetime_ok-times c h = elim (Option-cases c.issued_at) [
  | inl none_issued ↦ absurd (ground arith)
  | inr (i, issued) ↦ elim (Option-cases c.expiry) [
    | inl none_expiry ↦ absurd (ground arith)
    | inr (e, expires) ↦ (i, e, issued, expires, ground arith)
  ]
]

strong_key-bits :
    {K : Type 0} (o : Option (K × ℕ)) (key : K)
    → strong_key o ≡ ok key
    → (bits : ℕ) × (o ≡ some (key, bits)) × (min_api_key_bits ≤ bits)
unfolding strong_key
strong_key-bits none key h = absurd (cc)
strong_key-bits (some (k, bits)) key h = elim (Bool-cases (ltb bits min_api_key_bits)) [
  | inl weak ↦ absurd (ground arith)
  | inr strong ↦
      let same : k ≡ key = ground arith in (bits, ap (λ x. some (x, bits)) same, ground arith)
]

key_error-ok : {B : Type 0} (r : Result ApiKeyError B) {b : B} → key_error r ≡ ok b → r ≡ ok b
key_error-ok (ok b) h = ground arith
key_error-ok (err e) h = cc

account_error-ok : {B : Type 0} (r : Result AuthError B) {b : B} → account_error r ≡ ok b → r ≡ ok b
account_error-ok (ok b) h = ground arith
account_error-ok (err e) h = cc

find?-keep_if_absent :
    (p q : ApiKey → Bool) (rows : List ApiKey)
    → count_if q rows ≤ 0
    → find? q (keep_if p rows) ≡ none
find?-keep_if_absent p q [] h = refl
find?-keep_if_absent p q (x ∷ rows) h = ground (arith, find?-keep_if_absent p q rows)

keep_if_absent :
    (p q : ApiKey → Bool) (rows : List ApiKey)
    → count_if q rows ≤ 0
    → keep_if (λ x. p x && q x) rows ≡ []
keep_if_absent p q [] h = refl
keep_if_absent p q (x ∷ rows) h = ground (arith, keep_if_absent p q rows)

-- Where one element at most passes a test, and one of those that pass both is taken away, none is
-- left that passes it.
none_left :
    (p q : ApiKey → Bool) (rows : List ApiKey) (k : ApiKey) (gone : List ApiKey)
    → count_if q rows ≤ 1
    → keep_if (λ x. p x && q x) rows ≡ k ∷ gone
    → find? q (keep_if (λ x. not (p x && q x)) rows) ≡ none
none_left p q [] k gone le h = absurd (cc)
none_left p q (x ∷ rows) k gone le h = elim (Bool-cases (q x)) [
  | inr other ↦ ground (arith, none_left p q rows k gone)
  | inl one ↦
      let absent : count_if q rows ≤ 0 = ground arith in
      elim (Bool-cases (p x)) [
        | inl taken ↦ ground (arith, find?-keep_if_absent (λ x. not (p x && q x)) q rows absent)
        | inr left ↦ absurd (let e = keep_if_absent p q rows absent in ground arith)
      ]
]

module _ {T S A K : Type 0} (users : Table T User) (sessions : Table S Session)
    (api_keys : Table A ApiKey) (jwt : Jwt K) where
  -- What stands behind a token that is accepted at a time: a stored key with a modulus of at least
  -- 2048 bits, which verifies the token; the times in it; and the stored account of the key.
  pub record Signed (t : Tables T S) (keys : A) (raw : Text) (now : Time) (u : User) : Type 0 where
    pub id : Uuid
    pub named : only_key jwt (jwt.key_ids raw) ≡ some id
    pub key : ApiKey
    pub found : find? (key_by_id id) (api_keys.rows keys) ≡ some key
    pub public : K
    pub bits : ℕ
    pub parsed : jwt.rsa_key key.public_key_pem ≡ some (public, bits)
    pub strong : 2048 ≤ bits
    pub claims : Claims
    pub verified : jwt.claims public raw ≡ some claims
    pub issued : Time
    pub issued_so : claims.issued_at ≡ some issued
    pub not_before : issued ≤ now + minute
    pub not_after : now ≤ issued + hour + minute
    pub owner : find? (user_by_id key.user_id) (users.rows t.users) ≡ some u

  deleted_key-eq :
      (gone : List ApiKey) (keys : A) {k : ApiKey} {keys' : A}
      → deleted_key users sessions api_keys jwt gone keys ≡ ok (k, keys')
      → (others : List ApiKey) × (gone ≡ k ∷ others) × (keys ≡ keys')
  deleted_key-eq [] keys h = absurd (cc)
  deleted_key-eq (x ∷ gone) keys {k} h =
      let same : x ≡ k = ground arith in (gone, ap (λ y. y ∷ gone) same, ground arith)

  module _ (user_laws : IsTable KeptUser users) (key_laws : IsTable KeptKey api_keys)
      (jwt_laws : IsJwt jwt) where
    checked_key-Signed :
        (t : Tables T S) (keys : A) (id : Uuid) (raw : Text) (now : Time) (u : User)
        → only_key jwt (jwt.key_ids raw) ≡ some id
        → checked_key users sessions api_keys jwt t keys id raw now ≡ ok u
        → Signed t keys raw now u
    unfolding checked_key parse_api_key_public_key
    checked_key-Signed t keys id raw now u named h =
        let (found, e1, h1) = >>=-eq-ok (wrap (first api_keys keys (key_by_id id))) _ h in
        let (key, e2, h2) = >>=-eq-ok (or_err found invalid_session) _ h1 in
        let (public, e3, h3) =
          >>=-eq-ok (key_error (parse_api_key_public_key jwt key.public_key_pem)) _ h2 in
        let (claims, e4, h4) = >>=-eq-ok (or_err (jwt.claims public raw) invalid_session) _ h3 in
        let (_, e5, h5) = >>=-eq-ok (guard (lifetime_ok claims) invalid_session) _ h4 in
        let (_, e6, h6) =
          >>=-eq-ok (guard (jwt.validate claims now api_key_clock_skew) invalid_session) _ h5 in
        let (bits, parsed, strong) =
          strong_key-bits (jwt.rsa_key key.public_key_pem) public
            (key_error-ok (strong_key (jwt.rsa_key key.public_key_pem)) e3) in
        let (issued, expires, issued_so, expires_so, lifetime) =
          lifetime_ok-times claims (guard-true (lifetime_ok claims) invalid_session e5) in
        let valid = guard-true (jwt.validate claims now api_key_clock_skew) invalid_session e6 in
        record {
          id = id;
          named = named;
          key = key;
          found =
              sym (first-rows api_keys key_laws keys (key_by_id id) found (wrap-eq-ok _ e1))
              ∙ or_err-ok found invalid_session e2;
          public = public;
          bits = bits;
          parsed = parsed;
          strong = strong;
          claims = claims;
          verified = or_err-ok (jwt.claims public raw) invalid_session e4;
          issued = issued;
          issued_so = issued_so;
          not_before = jwt_laws.issued claims now api_key_clock_skew issued valid issued_so;
          not_after = omega (
            arith,
            jwt_laws.expires claims now api_key_clock_skew expires valid expires_so,
            lifetime,
          );
          owner = get_user-ok users sessions user_laws t key.user_id h6;
        }

    -- Over lawful tables, with a check of JWT times that keeps to them, a token that is accepted as
    -- an API key's verifies with a stored key of at least 2048 bits, was issued at most a minute
    -- after now and at most an hour and a minute before, and acts as the stored account of the key.
    pub user_for_api_key-Signed :
        (t : Tables T S) (keys : A) (raw : Text) (now later : Time) (u : User)
        → (user_for_api_key users sessions api_keys jwt t keys raw now later).0 ≡ some (ok u)
        → Signed t keys raw now u
    unfolding user_for_api_key
    user_for_api_key-Signed t keys raw now later u h =
        elim (Option-cases (only_key jwt (jwt.key_ids raw))) [
          | inl e ↦
              let none_handled : (by_key users sessions api_keys jwt t keys raw now later none).0
                  ≡ some (ok u) =
                subst
                  (λ o. (by_key users sessions api_keys jwt t keys raw now later o).0 ≡ some (ok u))
                  e h in
              absurd (cc)
          | inr (id, e) ↦
              let handled : (by_key users sessions api_keys jwt t keys raw now later (some id)).0
                  ≡ some (ok u) =
                subst
                  (λ o. (by_key users sessions api_keys jwt t keys raw now later o).0 ≡ some (ok u))
                  e h in
              checked_key-Signed t keys id raw now u e (ground arith)
        ]

    -- Over lawful tables in which no two keys have one ID, after DeleteAPIKey has deleted a key, no
    -- token that names it is accepted in the table that it leaves.
    pub delete_api_key-revokes :
        (keys : A) (user_id : ℕ) (id : Uuid) (k : ApiKey) (keys' : A)
        → count_if (key_by_id id) (api_keys.rows keys) ≤ 1
        → delete_api_key users sessions api_keys jwt keys user_id id ≡ ok (k, keys')
        → (t : Tables T S) (raw : Text) (now later : Time) (u : User)
        → only_key jwt (jwt.key_ids raw) ≡ some id
        → (user_for_api_key users sessions api_keys jwt t keys' raw now later).0 ≢ some (ok u)
    unfolding delete_api_key
    delete_api_key-revokes keys user_id id k keys' unique h t raw now later u named accepted =
        let (deletion, e, h') =
          >>=-eq-ok
            (account_error (wrap (api_keys.delete keys (λ k. k.user_id == user_id && k.id == id))))
            _ h in
        let (rows, gone) =
          key_laws.delete-rows keys (λ k. k.user_id == user_id && k.id == id) deletion.0 deletion.1
            (wrap-eq-ok _ (account_error-ok _ e)) in
        let s = user_for_api_key-Signed t keys' raw now later u accepted in
        let (others, some_gone, left) = deleted_key-eq deletion.1 deletion.0 h' in
        let same_id : s.id ≡ id = ground (arith, s.named, named) in
        let absent =
          none_left (λ k. k.user_id == user_id) (key_by_id id) (api_keys.rows keys) k others unique
            (sym gone ∙ some_gone) in
        let found = ap (λ q. find? (key_by_id q) (api_keys.rows keys')) (sym same_id) ∙ s.found in
        let rows' = ap api_keys.rows (sym left) ∙ rows in
        let found' = ap (find? (key_by_id id)) (sym rows') ∙ found in ground arith
