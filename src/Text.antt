-- ===== src/Text.antt =====
-- Go strings as lists of code points, and the functions of the standard library that the server
-- calls on them: strings.TrimSpace, utf8.RuneCountInString, len, unicode.IsControl,
-- strings.EqualFold and strings.Split. Every string comes from JSON, a header or the database, which
-- deliver valid UTF-8, so that the code points determine the bytes.
pub mod Trim
pub mod Order
pub mod Url
pub mod Decimal
use unit_management.Base.{
  ℕ, suc, ◌+◌, ◌≡◌, refl, ◌↔◌, Bool, true, false, ◌&&◌, ◌||◌, List, [], ◌∷◌, arith, ltb, leb, ◌==◌,
  ==_iff, if◌then◌else◌, length, any,
}

abbrev pub Text : Type 0
Text = List ℕ

-- s == t
unfoldable pub text_eq : Text → Text → Bool
text_eq [] [] = true
text_eq [] (d ∷ t) = false
text_eq (c ∷ s) [] = false
text_eq (c ∷ s) (d ∷ t) = c == d && text_eq s t

pub text_eq_iff : (s t : Text) → (text_eq s t ≡ true) ↔ (s ≡ t)
unfolding text_eq
text_eq_iff [] [] = (λ _. refl, λ _. refl)
text_eq_iff [] (d ∷ t) = ground arith
text_eq_iff (c ∷ s) [] = ground arith
text_eq_iff (c ∷ s) (d ∷ t) = ground (arith, text_eq_iff s t)

pub text_eq_refl : (s : Text) → text_eq s s ≡ true
text_eq_refl s = (text_eq_iff s s).1 refl

-- s == ""
abbrev pub is_empty : Text → Bool
is_empty [] = true
is_empty (c ∷ s) = false

abbrev between : ℕ → ℕ → ℕ → Bool
between lo hi c = leb lo c && leb c hi

-- unicode.IsSpace
unfoldable pub is_space : ℕ → Bool
is_space c =
    between 0x09 0x0d c
    || c == 0x20
    || c == 0x85
    || c == 0xa0
    || c == 0x1680
    || between 0x2000 0x200a c
    || c == 0x2028
    || c == 0x2029
    || c == 0x202f
    || c == 0x205f
    || c == 0x3000

-- unicode.IsControl: the category Cc
unfoldable pub is_control : ℕ → Bool
is_control c = leb c 0x1f || between 0x7f 0x9f c

trim_left : Text → Text
trim_left [] = []
trim_left (c ∷ s) = let rest = trim_left s in if is_space c then rest else c ∷ s

abbrev trim_end : ℕ → Text → Text
trim_end c [] = if is_space c then [] else c ∷ []
trim_end c (d ∷ s) = c ∷ d ∷ s

trim_right : Text → Text
trim_right [] = []
trim_right (c ∷ s) = trim_end c (trim_right s)

-- strings.TrimSpace
unfoldable pub trim_space : Text → Text
unfolding trim_left trim_right is_space
trim_space s = trim_right (trim_left s)

abbrev rune_len : ℕ → ℕ
rune_len c = if ltb c 0x80 then 1 else if ltb c 0x800 then 2 else if ltb c 0x10000 then 3 else 4

-- len(s): the bytes of the UTF-8 encoding
unfoldable pub byte_len : Text → ℕ
byte_len [] = 0
byte_len (c ∷ s) = rune_len c + byte_len s

-- utf8.RuneCountInString
abbrev pub rune_count : Text → ℕ
rune_count = length

-- strings.ContainsFunc
abbrev pub contains_func : Text → (ℕ → Bool) → Bool
contains_func s p = any p s

-- One step of simple case folding, onto the lower-case ASCII letters; of the other code points only
-- U+017F and U+212A fold to ASCII letters.
abbrev fold : ℕ → ℕ
fold c =
    if between b'A' b'Z' c
    then c + 32
    else if c == 0x17f
    then b's'
    else if c == 0x212a
    then b'k'
    else c

-- strings.EqualFold(s, t) for a text t of lower-case ASCII letters
unfoldable pub equal_fold : Text → Text → Bool
equal_fold [] [] = true
equal_fold [] (d ∷ t) = false
equal_fold (c ∷ s) [] = false
equal_fold (c ∷ s) (d ∷ t) = fold c == d && equal_fold s t

-- The pieces of a text between the separators: at the first piece, which grows, and the others.
abbrev split_at : ℕ → ℕ → Text × List Text → Text × List Text
split_at sep c (piece, pieces) = if c == sep then ([], piece ∷ pieces) else (c ∷ piece, pieces)

split_from : ℕ → Text → Text × List Text
split_from sep [] = ([], [])
split_from sep (c ∷ s) = split_at sep c (split_from sep s)

-- strings.Split(s, sep) at a separator of one character
unfoldable pub split : ℕ → Text → List Text
unfolding split_from
split sep s = let (piece, pieces) = split_from sep s in piece ∷ pieces
