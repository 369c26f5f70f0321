-- ===== src/Text/Decimal.antt =====
-- strconv.FormatUint and strconv.ParseUint in base 10, for 64 bits.
use unit_management.Base.{
  ℕ, zero, suc, ◌+◌, ◌-◌, ◌*◌, ◌/◌, ◌%◌, ◌^◌, ◌<◌, ◌≤◌, ◌≡◌, refl, sym, ap, ◌∙◌, inl, inr, true,
  false, ◌||◌, Option, none, some, [], ◌∷◌, arith, ltb, Bool-cases, if◌then◌else◌,
}
use unit_management.Text.{Text}

-- The digits of a number before those in a list, on fuel.
unfoldable pub format_digits : ℕ → ℕ → Text → Text
format_digits zero n digits = (b'0' + n % 10) ∷ digits
format_digits (suc fuel) n digits =
    let rest = format_digits fuel (n / 10) ((b'0' + n % 10) ∷ digits) in
    if ltb n 10 then (b'0' + n % 10) ∷ digits else rest

-- A number has at most as many digits as its value, or one.
unfoldable pub format_uint : ℕ → Text
format_uint n = format_digits n n []

-- The number that the digits go on to from those read.
unfoldable pub parse_digits : ℕ → Text → Option ℕ
parse_digits n [] = some n
parse_digits n (c ∷ s) =
    let rest = parse_digits (n * 10 + (c - b'0')) s in
    if ltb c b'0' || ltb b'9' c then none else rest

unfoldable pub within_bits : Option ℕ → Option ℕ
within_bits none = none
within_bits (some n) = if ltb n (2 ^ 64) then some n else none

unfoldable pub parse_uint : Text → Option ℕ
parse_uint [] = none
parse_uint (c ∷ s) = within_bits (parse_digits 0 (c ∷ s))

parse_digits-digit :
    (k n : ℕ) (digits : Text)
    → k * 10 + n % 10 ≡ n
    → parse_digits k ((b'0' + n % 10) ∷ digits) ≡ parse_digits n digits
unfolding parse_digits
parse_digits-digit k n digits h =
    let low : ltb (b'0' + n % 10) b'0' || ltb b'9' (b'0' + n % 10) ≡ false = ground arith in
    rw low (ap (λ m. parse_digits m digits) (omega (arith, h)))

parse_digits-format_digits :
    (fuel n : ℕ) (digits : Text)
    → n ≤ fuel
    → parse_digits 0 (format_digits fuel n digits) ≡ parse_digits n digits
unfolding format_digits
parse_digits-format_digits zero n digits le = parse_digits-digit 0 n digits (omega arith)
parse_digits-format_digits (suc fuel) n digits le = elim (Bool-cases (ltb n 10)) [
  | inl small ↦ rw small (parse_digits-digit 0 n digits (ground arith))
  | inr large ↦ rw large (
      parse_digits-format_digits fuel (n / 10) ((b'0' + n % 10) ∷ digits) (ground arith)
      ∙ parse_digits-digit (n / 10) n digits (omega arith))
]

format_digits-cons :
    (fuel n : ℕ) (digits : Text) → (c : ℕ) × (s : Text) × (format_digits fuel n digits ≡ c ∷ s)
unfolding format_digits
format_digits-cons zero n digits = (b'0' + n % 10, digits, refl)
format_digits-cons (suc fuel) n digits = elim (Bool-cases (ltb n 10)) [
  | inl small ↦ (b'0' + n % 10, digits, rw small refl)
  | inr large ↦
      let (c, s, e) = format_digits-cons fuel (n / 10) ((b'0' + n % 10) ∷ digits) in
      (c, s, rw large e)
]

-- A number of 64 bits is read back from its digits.
pub parse_uint-format_uint : (n : ℕ) → n < 2 ^ 64 → parse_uint (format_uint n) ≡ some n
unfolding parse_uint format_uint parse_digits within_bits
parse_uint-format_uint n bits =
    let (c, s, e) = format_digits-cons n n [] in
    let read = parse_digits-format_digits n n [] (omega arith) in
    let fits : ltb n (2 ^ 64) ≡ true = ground arith in
    rw e (ap within_bits (ap (parse_digits 0) (sym e) ∙ read) ∙ rw fits refl)
