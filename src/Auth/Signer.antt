-- ===== src/Auth/Signer.antt =====
-- internal/auth/jwt.go: the access tokens of sessions, JWTs whose ID is the session's random one.
use unit_management.Base.{
  ℕ, ◌*◌, ◌/◌, ◌≡◌, ◌≤◌, ◌<◌, ◌^◌, refl, ap, ◌∙◌, inl, inr, true, false, Option, none, some, [],
  ◌∷◌, arith, ◌==◌, if◌then◌else◌, Bool-cases,
}
use unit_management.Text.{Text, is_empty}
use unit_management.Text.Decimal.{format_uint, parse_uint, parse_uint-format_uint}
use unit_management.Models.{Time, zero_time, second}
use unit_management.Auth.{TokenClaims, Jose, Crypto}

-- "go-unit-mangement"
abbrev pub token_issuer : Text
token_issuer =
    b'g' ∷ b'o' ∷ b'-' ∷ b'u' ∷ b'n' ∷ b'i' ∷ b't' ∷ b'-' ∷ b'm' ∷ b'a' ∷ b'n' ∷ b'g' ∷ b'e' ∷ b'm'
    ∷ b'e' ∷ b'n' ∷ b't' ∷ []

-- jwt.NewNumericDate: whole seconds, nil for the zero time
unfoldable pub numeric_date : Time → Option ℕ
numeric_date t = if t == zero_time then none else some (t / second)

unfoldable pub claims_of : Text → ℕ → Time → Time → TokenClaims
claims_of session_id user_id issued expires = record {
  issuer = token_issuer;
  subject = format_uint user_id;
  id = session_id;
  issued_at = numeric_date issued;
  expiry = numeric_date expires;
  not_before = none;
}

-- tokenSigner.sign
unfoldable pub sign : Crypto → Text → ℕ → Time → Time → Option Text
sign crypto session_id user_id issued expires =
    crypto.jose.serialize (claims_of session_id user_id issued expires)

-- The session's ID and the user's, of claims that have passed the checks.
unfoldable pub claimed : Text → Option ℕ → Option (Text × ℕ)
claimed id none = none
claimed id (some user_id) = if is_empty id then none else some (id, user_id)

unfoldable pub checked_claims : Crypto → Time → TokenClaims → Option ℕ → Option (Text × ℕ)
checked_claims crypto now c none = none
checked_claims crypto now c (some expires) =
    if crypto.jose.validate c token_issuer now then claimed c.id (parse_uint c.subject) else none

unfoldable pub parsed_token : Crypto → Time → Option TokenClaims → Option (Text × ℕ)
parsed_token crypto now none = none
parsed_token crypto now (some c) = checked_claims crypto now c c.expiry

-- tokenSigner.verify; its errors are all ErrInvalidSession.
unfoldable pub verify : Crypto → Time → Text → Option (Text × ℕ)
verify crypto now token = parsed_token crypto now (crypto.jose.parse token)

-- A date that JSON's numbers, which are read as float64, carry exactly.
abbrev pub IsDate : Option ℕ → Type 0
IsDate none = Unit
IsDate (some seconds) = seconds < 2 ^ 53

-- What go-jose documents: a token carries its claims, and ValidateWithLeeway without leeway accepts
-- the expected issuer from the time of issue to the expiry, both in whole seconds.
pub record IsJose (jose : Jose) : Type 0 where
  pub parse-serialize :
      (c : TokenClaims) (token : Text)
      → IsDate c.issued_at
      → IsDate c.expiry
      → IsDate c.not_before
      → jose.serialize c ≡ some token
      → jose.parse token ≡ some c
  pub accepts :
      (c : TokenClaims) (now expires : ℕ)
      → ((issued : ℕ) → c.issued_at ≡ some issued → issued * second ≤ now)
      → c.expiry ≡ some expires
      → now ≤ expires * second
      → c.not_before ≡ none
      → jose.validate c c.issuer now ≡ true

whole_issued : (t now issued : ℕ) → t ≤ now → numeric_date t ≡ some issued → issued * second ≤ now
unfolding numeric_date
whole_issued t now issued le h = elim (Bool-cases (t == zero_time)) [
  | inl zero_set ↦ absurd (ground arith)
  | inr set ↦ let same : t / second ≡ issued = ground arith in omega (arith, le, same)
]

numeric_date-late : (t : Time) → zero_time < t → numeric_date t ≡ some (t / second)
unfolding numeric_date
numeric_date-late t late = let set : (t == zero_time) ≡ false = ground (arith, late) in rw set refl

numeric_date-IsDate : (t : Time) → t < 2 ^ 53 * second → IsDate (numeric_date t)
unfolding numeric_date
numeric_date-IsDate t near = elim (Bool-cases (t == zero_time)) [
  | inl zero_set ↦ rw zero_set tt
  | inr set ↦ rw set (omega (arith, near))
]

checked_claims-ok :
    (crypto : Crypto) (now : Time) (c : TokenClaims) (expires id : ℕ)
    → crypto.jose.validate c token_issuer now ≡ true
    → parse_uint c.subject ≡ some id
    → is_empty c.id ≡ false
    → checked_claims crypto now c (some expires) ≡ some (c.id, id)
unfolding checked_claims claimed
checked_claims-ok crypto now c expires id valid read named = rw (valid, read, named) refl

-- A token that is signed verifies until its expiry, if that is a whole number of seconds, to a session
-- ID that is not empty and a user's of 64 bits.
pub verify-sign :
    (crypto : Crypto) (sid : Text) (id : ℕ) (issued expires : Time) (token : Text) (now : Time)
    → IsJose crypto.jose
    → sign crypto sid id issued expires ≡ some token
    → is_empty sid ≡ false
    → id < 2 ^ 64
    → (expires / second) * second ≡ expires
    → zero_time ≤ issued
    → issued ≤ now
    → now < expires
    → expires < 2 ^ 53 * second
    → verify crypto now token ≡ some (sid, id)
unfolding sign verify parsed_token claims_of
verify-sign crypto sid id issued expires token now laws signed named bits whole set le lt near =
    let c = claims_of sid id issued expires in
    let date : numeric_date expires ≡ some (expires / second) =
      numeric_date-late expires (omega (arith, set, le, lt)) in
    let valid : crypto.jose.validate c token_issuer now ≡ true =
      laws.accepts c now (expires / second) (λ seconds so. whole_issued issued now seconds le so)
        date (omega (arith, whole, lt)) refl in
    ap (parsed_token crypto now) (
      laws.parse-serialize c token (numeric_date-IsDate issued (omega (arith, le, lt, near)))
        (numeric_date-IsDate expires near) tt signed)
    ∙ ap (checked_claims crypto now c) date
    ∙ checked_claims-ok crypto now c (expires / second) id valid (parse_uint-format_uint id bits)
        named
