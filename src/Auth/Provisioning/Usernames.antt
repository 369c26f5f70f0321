-- ===== src/Auth/Provisioning/Usernames.antt =====
-- The usernames of new accounts are within their bound.
use mathlib.Core.Path.{subst}
use unit_management.Base.{
  ℕ, zero, suc, ◌+◌, ◌-◌, ◌≤◌, ◌≡◌, refl, inl, inr, Option, none, some, List, [], ◌∷◌, arith, ltb,
  length, length-append, take, Bool-cases, ok, Result-cases, ◌||◌,
}
use unit_management.Text.{Text, is_empty, trim_space, rune_count, byte_len}
use unit_management.Auth.Users.{max_username_length, normalize_username}
use unit_management.Auth.Oidc.{OidcIdentity}
use unit_management.Auth.Provisioning.{
  truncate_runes, first_username, or_truncated, provisioned_username, hex, random_suffix,
  with_suffix, next_name,
}

length-take-le : {A : Type 0} (n : ℕ) (xs : List A) → length (take n xs) ≤ n
length-take-le zero xs = omega arith
length-take-le (suc n) [] = omega arith
length-take-le (suc n) (x ∷ xs) = omega (arith, length-take-le n xs)

pub length-truncate_runes-le : (s : Text) (n : ℕ) → length (truncate_runes s n) ≤ n
unfolding truncate_runes
length-truncate_runes-le s n = ground (arith, length-take-le n s)

length-byte_len-le : (s : Text) → length s ≤ byte_len s
unfolding byte_len
length-byte_len-le [] = omega arith
length-byte_len-le (c ∷ s) = ground (arith, length-byte_len-le s)

normalize_username-ok :
    (v name : Text) → normalize_username v ≡ ok name → length name ≤ max_username_length
unfolding normalize_username
normalize_username-ok v name h =
    let t = trim_space v in
    elim (Bool-cases (is_empty t || ltb max_username_length (rune_count t))) [
      | inl e ↦ absurd (ground arith)
      | inr e ↦ let same : t ≡ name = ground arith in ground arith
    ]

first_username-bound :
    (vs : List Text) (name : Text)
    → first_username vs ≡ some name
    → length name ≤ max_username_length
unfolding first_username
first_username-bound [] name h = absurd (cc)
first_username-bound (v ∷ vs) name h = elim (Result-cases (normalize_username v)) [
  | inl (n, e) ↦ normalize_username-ok v name (ground arith)
  | inr (x, e) ↦ first_username-bound vs name (ground arith)
]

pub length-provisioned_username-le :
    (id : OidcIdentity) → length (provisioned_username id) ≤ max_username_length
unfolding provisioned_username or_truncated
length-provisioned_username-le id =
    by_candidate (first_username (id.preferred_username ∷ id.email ∷ id.subject ∷ []))
      (first_username-bound (id.preferred_username ∷ id.email ∷ id.subject ∷ []))
  where
    by_candidate :
        (o : Option Text)
        → ((name : Text) → o ≡ some name → length name ≤ max_username_length)
        → length (or_truncated id o) ≤ max_username_length
    by_candidate none bound = length-truncate_runes-le id.subject max_username_length
    by_candidate (some name) bound = bound name refl

length-with_suffix-le :
    (id : OidcIdentity) (suffix : Text)
    → length suffix + 1 ≤ max_username_length
    → length (with_suffix id suffix) ≤ max_username_length
unfolding with_suffix
length-with_suffix-le id suffix short =
    let cut =
      truncate_runes (provisioned_username id) (max_username_length - byte_len suffix - 1) in
    omega (
      arith,
      length-append cut (b'-' ∷ suffix),
      length-truncate_runes-le (provisioned_username id)
          (max_username_length - byte_len suffix - 1),
      length-byte_len-le suffix,
      short,
    )

pub next_name-bound :
    (id : OidcIdentity) (bytes : Option (ℕ × ℕ × ℕ)) (name : Text)
    → next_name id bytes ≡ ok name
    → length name ≤ max_username_length
unfolding next_name random_suffix hex
next_name-bound id none name h = cc
next_name-bound id (some (a, b, c)) name h =
    let suffix = hex (a ∷ b ∷ c ∷ []) in
    let same : with_suffix id suffix ≡ name = ground arith in
    subst (λ n. length n ≤ max_username_length) same (length-with_suffix-le id suffix (omega arith))
