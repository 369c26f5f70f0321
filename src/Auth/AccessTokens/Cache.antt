-- ===== src/Auth/AccessTokens/Cache.antt =====
-- The cache of access tokens against its history: how it prunes its map does not show.
use unit_management.Base.{
  ℕ, ◌+◌, ◌≤◌, ◌≡◌, refl, sym, ◌∙◌, ap, inl, inr, ◌&&◌, Option, none, some, List, [], ◌∷◌, arith,
  ◌==◌, ltb, leb, if◌then◌else◌, length, Bool-cases,
}
use unit_management.Base.Assoc.{lookup, lookup-assign, Distinct, Distinct-assign}
use unit_management.Models.{Time}
use unit_management.Auth.AccessTokens.{
  access_token_cache_ttl, access_token_cache_prune_size, CachedAccessToken, TokenCache, fresh,
  cached, prune, swept, earlier, store,
}

-- A call of store, and the cache after a history of them, the latest first.
pub record Store : Type 0 where
  pub key : ℕ
  pub user_id : ℕ
  pub token_expiry : Time
  pub stored_at : Time
  pub pruned_at : Time

unfoldable pub stored : List Store → TokenCache
stored [] = []
stored (e ∷ history) = store (stored history) e.key e.user_id e.token_expiry e.stored_at e.pruned_at

-- The clock does not go back, and all was stored by the time `t`.
abbrev pub Until : Time → List Store → Type 0
Until t [] = Unit
Until t (e ∷ history) = (e.pruned_at ≤ t) × (e.stored_at ≤ e.pruned_at) × Until e.stored_at history

-- The reference: the latest call for the key, within a minute and until the token expires.
abbrev pub latest_store : ℕ → List Store → Option Store
latest_store key [] = none
latest_store key (e ∷ history) = if e.key == key then some e else latest_store key history

abbrev pub counts_at : Time → Option Store → Option ℕ
counts_at t none = none
counts_at t (some e) =
    if leb t (e.stored_at + access_token_cache_ttl) && leb t e.token_expiry
    then some e.user_id
    else none

abbrev unless_expired : Time → Option CachedAccessToken → Option CachedAccessToken
unless_expired now none = none
unless_expired now (some e) = if ltb e.expires now then none else some e

lookup-prune-none :
    (now : Time) (key : ℕ) (cache : TokenCache)
    → lookup key cache ≡ none
    → lookup key (prune now cache) ≡ none
unfolding prune
lookup-prune-none now key [] h = refl
lookup-prune-none now key ((k, e) ∷ cache) h = ground (arith, lookup-prune-none now key cache)

lookup-prune :
    (now : Time) (key : ℕ) (cache : TokenCache)
    → Distinct cache
    → lookup key (prune now cache) ≡ unless_expired now (lookup key cache)
unfolding prune
lookup-prune now key [] d = refl
lookup-prune now key ((k, e) ∷ cache) (new, d) = elim (Bool-cases (k == key)) [
  | inr other ↦ ground (arith, lookup-prune now key cache d)
  | inl here ↦
      let same : k ≡ key = ground arith in
      let absent = lookup-prune-none now key cache (ap (λ q. lookup q cache) (sym same) ∙ new) in
      ground arith
]

Distinct-prune : (now : Time) (cache : TokenCache) → Distinct cache → Distinct (prune now cache)
unfolding prune
Distinct-prune now [] d = tt
Distinct-prune now ((k, e) ∷ cache) (new, d) = elim (Bool-cases (ltb e.expires now)) [
  | inl old ↦ rw old (Distinct-prune now cache d)
  | inr kept ↦ rw kept (lookup-prune-none now k cache new, Distinct-prune now cache d)
]

Distinct-swept : (now : Time) (cache : TokenCache) → Distinct cache → Distinct (swept now cache)
unfolding swept
Distinct-swept now cache d = elim (Bool-cases (leb access_token_cache_prune_size (length cache))) [
  | inl full ↦ rw full (Distinct-prune now cache d)
  | inr small ↦ rw small d
]

Distinct-stored : (history : List Store) → Distinct (stored history)
unfolding stored store
Distinct-stored [] = tt
Distinct-stored (e ∷ history) =
    Distinct-assign e.key
      (record {
        user_id = e.user_id;
        expires = earlier e.token_expiry (e.stored_at + access_token_cache_ttl);
      })
      (swept e.pruned_at (stored history))
      (Distinct-swept e.pruned_at (stored history) (Distinct-stored history))

Until-later : (a b : Time) (history : List Store) → a ≤ b → Until a history → Until b history
Until-later a b [] le h = tt
Until-later a b (e ∷ history) le (before, own, h) = (omega arith, own, h)

-- What the cache answers, given what it answered before, for a key and a time.
fresh-unless_expired :
    (t now : Time) (o : Option CachedAccessToken)
    → now ≤ t
    → fresh t (unless_expired now o) ≡ fresh t o
unfolding fresh
fresh-unless_expired t now none le = refl
fresh-unless_expired t now (some e) le = ground arith

cached-swept :
    (cache : TokenCache) (now key t : Time)
    → Distinct cache
    → now ≤ t
    → cached (swept now cache) key t ≡ cached cache key t
unfolding cached swept
cached-swept cache now key t d le =
    elim (Bool-cases (leb access_token_cache_prune_size (length cache))) [
      | inr small ↦ rw small refl
      | inl full ↦ rw full (
          ap (fresh t) (lookup-prune now key cache d)
          ∙ fresh-unless_expired t now (lookup key cache) le)
    ]

cached-store :
    (cache : TokenCache) (e : Store) (key : ℕ) (t : Time)
    → Distinct cache
    → e.pruned_at ≤ t
    → cached (store cache e.key e.user_id e.token_expiry e.stored_at e.pruned_at) key t
      ≡ (if e.key == key then counts_at t (some e) else cached cache key t)
unfolding cached store fresh earlier
cached-store cache e key t d le =
    let found =
      lookup-assign key e.key
        (record {
          user_id = e.user_id;
          expires = earlier e.token_expiry (e.stored_at + access_token_cache_ttl);
        })
        (swept e.pruned_at cache) in
    elim (Bool-cases (e.key == key)) [
      | inl here ↦ ap (fresh t) found ∙ ground arith
      | inr other ↦ ap (fresh t) found ∙ rw other (cached-swept cache e.pruned_at key t d le)
    ]

-- On a clock that does not go back, the cache answers a token's account exactly if the token was
-- last stored, under that account, at most a minute ago, and has not expired, however it pruned its
-- map.
pub cached-stored :
    (history : List Store) (key : ℕ) (t : Time)
    → Until t history
    → cached (stored history) key t ≡ counts_at t (latest_store key history)
unfolding stored cached fresh
cached-stored [] key t h = refl
cached-stored (e ∷ history) key t (le, own, h) =
    let rest = cached-stored history key t (Until-later e.stored_at t history (omega arith) h) in
    ground (arith, rest, cached-store (stored history) e key t (Distinct-stored history) le)
