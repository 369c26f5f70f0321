-- ===== src/Auth/AccessTokens/Vouched.antt =====
-- What stands behind an account that the path of the access tokens answers.
use unit_management.Base.{
  ℕ, ◌≡◌, ◌≤◌, refl, sym, ◌∙◌, ap, inl, inr, true, false, not, ◌||◌, Option, none, some, List, [],
  ◌∷◌, arith, any, Bool-cases, Result, ok, err,
}
use unit_management.Base.Assoc.{lookup}
use unit_management.Base.Among.{Among}
use unit_management.Text.{Text, text_eq, is_empty}
use unit_management.Database.{Table, IsTable}
use unit_management.Models.{Time, User, Group, UserGroup}
use unit_management.Auth.Lookup.{KeptUser}
use unit_management.Auth.Oidc.{OidcError, RawGroups, parse_groups}
use unit_management.Auth.AccessTokens.{
  AccessTokens, AccessToken, CachedAccessToken, Verified, Readings, State, fresh, cached,
  cached_account, grouped, with_claims, access_identity, accepted_audience, checked_token, verify,
  verifier_for, verified_account, by_verifier, user_for_access_token,
}
use unit_management.Auth.AccessTokens.Accounts.{Answers, found_user-found, verified_account-OwnedBy}

-- A token that a verifier accepts at a time, for one of the audiences, which is no ID token by its
-- nonce and names the subject.
pub record Asserted (a : AccessTokens) (verifier : Time → Text → Option AccessToken) (now : Time)
    (raw subject : Text) : Type 0 where
  pub token : AccessToken
  pub verified : verifier now raw ≡ some token
  pub for_us : any (λ aud. any (text_eq aud) a.audiences) token.audience ≡ true
  pub no_nonce : is_empty token.nonce ≡ true
  pub subject_same : token.subject ≡ subject

grouped-subject :
    (a : AccessTokens) (token : AccessToken) (claims : Text × Text × Text)
    (r : Result OidcError (List Text)) (v : Verified)
    → grouped a token claims r ≡ some v
    → token.subject ≡ v.identity.subject
unfolding grouped access_identity
grouped-subject a token claims (err e) v h = absurd (cc)
grouped-subject a token claims (ok groups) v h = ap subject_of h
  where
    subject_of : Option Verified → Text
    subject_of none = []
    subject_of (some w) = w.identity.subject

with_claims-subject :
    (a : AccessTokens) (token : AccessToken) (o : Option ((Text × Text × Text) × Option RawGroups))
    (v : Verified)
    → with_claims a token o ≡ some v
    → (is_empty token.nonce ≡ true) × (token.subject ≡ v.identity.subject)
unfolding with_claims access_identity
with_claims-subject a token none v h = absurd (cc)
with_claims-subject a token (some ((username, email, typ), claim)) v h =
    elim (Bool-cases (text_eq typ (b'I' ∷ b'D' ∷ []) || not (is_empty token.nonce))) [
      | inl refused ↦ absurd (ground arith)
      | inr passed ↦ (ground arith, by_claim claim (ground arith))
    ]
  where
    subject_of : Option Verified → Text
    subject_of none = []
    subject_of (some w) = w.identity.subject

    by_claim :
        (c : Option RawGroups)
        → elim c [
          | some raw ↦ grouped a token (username, email, typ) (parse_groups raw)
          | none ↦ some (record {
            identity = access_identity token (username, email, typ) [] none;
            expiry = token.expiry;
            has_groups = false;
          })
        ]
          ≡ some v
        → token.subject ≡ v.identity.subject
    by_claim none h = ap subject_of h
    by_claim (some raw) h = grouped-subject a token (username, email, typ) (parse_groups raw) v h

verify-Asserted :
    (a : AccessTokens) (verifier : Time → Text → Option AccessToken) (now : Time) (raw : Text)
    (v : Verified)
    → verify a verifier now raw ≡ some v
    → Asserted a verifier now raw v.identity.subject
unfolding verify checked_token accepted_audience
verify-Asserted a verifier now raw v h = by_token (verifier now raw) refl h
  where
    by_token :
        (o : Option AccessToken)
        → verifier now raw ≡ o
        → checked_token a o ≡ some v
        → Asserted a verifier now raw v.identity.subject
    by_token none e h = absurd (cc)
    by_token (some token) e h = elim (Bool-cases (accepted_audience a token)) [
      | inr other ↦ absurd (ground arith)
      | inl ours ↦
          let (no_nonce, same) = with_claims-subject a token token.claims v (ground arith) in
          record {
            token = token;
            verified = e;
            for_us = ours;
            no_nonce = no_nonce;
            subject_same = same;
          }
    ]

-- What stands behind an account that is answered: a token that the verifier of its issuer accepts,
-- with the subject of the account, or an entry of the cache that has not expired, under the token's
-- hash and for the account.
pub data Vouched (a : AccessTokens) {T S G M : Type 0} (s : State T S G M) (raw : Text)
    (clock : Readings) (u : User) : Type 0 where
  by_token :
      (verifier : Time → Text → Option AccessToken) (subject : Text)
      → verifier_for a raw ≡ some verifier
      → Asserted a verifier clock.verified_at raw subject
      → u.oidc_subject ≡ some subject
      → Vouched a s raw clock u
  by_cache :
      (e : CachedAccessToken)
      → lookup (a.digest raw) s.cache ≡ some e
      → clock.cached_at ≤ e.expires
      → e.user_id ≡ u.id
      → Vouched a s raw clock u

fresh-some :
    (now : Time) (o : Option CachedAccessToken) (id : ℕ)
    → fresh now o ≡ some id
    → (e : CachedAccessToken) × (o ≡ some e) × (now ≤ e.expires) × (e.user_id ≡ id)
unfolding fresh
fresh-some now none id h = absurd (cc)
fresh-some now (some e) id h = (e, refl, ground arith, ground arith)

module _ {T S G M : Type 0} (users : Table T User) (groups : Table G Group)
    (memberships : Table M UserGroup) (by_name : List Group → List Group)
    (laws : IsTable KeptUser users) where
  -- An answered account is stored, and something stands behind it.
  abbrev pub IsVouched :
      Option AccessTokens → State T S G M → Text → Readings → List User → User → Type 0
  IsVouched o s raw clock rows u =
      Among rows u × (a : AccessTokens) × (o ≡ some a) × Vouched a s raw clock u

  by_verifier-IsVouched :
      (a : AccessTokens) (s : State T S G M) (raw : Text) (clock : Readings)
      (bytes : ℕ → Option (ℕ × ℕ × ℕ)) (o : Option (Time → Text → Option AccessToken)) (u : User)
      → verifier_for a raw ≡ o
      → Answers {S = S} users groups memberships by_name laws
          (IsVouched (some a) s raw clock)
          (by_verifier users groups memberships by_name a s raw clock bytes o)
          u
  unfolding Answers by_verifier cached_account cached verified_account
  by_verifier-IsVouched a s raw clock bytes none u e = λ h. absurd (cc)
  by_verifier-IsVouched a s raw clock bytes (some verifier) u e =
      by_hit (cached s.cache (a.digest raw) clock.cached_at) refl
    where
      by_verified :
          (o : Option Verified)
          → verify a verifier clock.verified_at raw ≡ o
          → Answers {S = S} users groups memberships by_name laws
              (IsVouched (some a) s raw clock)
              (verified_account users groups memberships by_name s (a.digest raw) clock bytes o)
              u
      by_verified none e' = λ h. absurd (cc)
      by_verified (some v) e' = λ h.
          let (stored, named) =
            verified_account-OwnedBy users groups memberships by_name laws s (a.digest raw) clock
              bytes v u h in
          (
            stored,
            a,
            refl,
            by_token verifier v.identity.subject e
                (verify-Asserted a verifier clock.verified_at raw v e') named,
          )

      by_hit :
          (hit : Option ℕ)
          → cached s.cache (a.digest raw) clock.cached_at ≡ hit
          → Answers {S = S} users groups memberships by_name laws
              (IsVouched (some a) s raw clock)
              (elim hit [
                | some user_id ↦ cached_account users groups memberships by_name s user_id
                | none ↦
                    verified_account users groups memberships by_name s
                      (a.digest raw)
                      clock
                      bytes
                      (verify a verifier clock.verified_at raw)
              ])
              u
      by_hit none e' = by_verified (verify a verifier clock.verified_at raw) refl
      by_hit (some user_id) e' = λ h.
          let (stored, same) =
            found_user-found users laws s.directory.tables.users user_id u (ground arith) in
          let (entry, found, time, owner) =
            fresh-some clock.cached_at (lookup (a.digest raw) s.cache) user_id e' in
          (stored, a, refl, by_cache entry found time (owner ∙ sym same))

  pub user_for_access_token-IsVouched :
      (o : Option AccessTokens) (s : State T S G M) (raw : Text) (clock : Readings)
      (bytes : ℕ → Option (ℕ × ℕ × ℕ)) (u : User)
      → Answers {S = S} users groups memberships by_name laws
          (IsVouched o s raw clock)
          (user_for_access_token users groups memberships by_name o s raw clock bytes)
          u
  unfolding Answers user_for_access_token
  user_for_access_token-IsVouched none s raw clock bytes u = λ h. absurd (cc)
  user_for_access_token-IsVouched (some a) s raw clock bytes u =
      by_verifier-IsVouched a s raw clock bytes (verifier_for a raw) u refl
