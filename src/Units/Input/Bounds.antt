-- ===== src/Units/Input/Bounds.antt =====
-- The bounds of a valid name and of a valid position, as numbers.
use unit_management.Base.{
  ℕ, ◌≡◌, ◌≢◌, ◌≤◌, ◌<◌, true, false, ◌&&◌, Option, none, some, [], ◌∷◌, arith,
}
use unit_management.Text.{Text, rune_count}
use unit_management.Float.{Float, nan, infinite, finite, float_eq, float_le, float_lt, whole}
use unit_management.Units.Input.{
  Position, valid_coordinate, valid_course, valid_position, valid_name,
}

-- A finite number of at most a magnitude, and one from 0 to below a magnitude.
abbrev pub IsWithin : ℕ → Float → Type 0
IsWithin limit nan = ⊥
IsWithin limit (infinite negative) = ⊥
IsWithin limit (finite negative m) = m ≤ limit

abbrev pub IsBelow : ℕ → Float → Type 0
IsBelow limit nan = ⊥
IsBelow limit (infinite negative) = ⊥
IsBelow limit (finite true m) = m ≡ 0
IsBelow limit (finite false m) = m < limit

abbrev pub IsCourse : Option Float → Type 0
IsCourse none = Unit
IsCourse (some v) = IsBelow (whole 360) v

-- A position on the globe: degrees of latitude, longitude and course.
abbrev pub IsPlaced : Option Position → Type 0
IsPlaced none = Unit
IsPlaced (some p) =
    IsWithin (whole 90) p.latitude × IsWithin (whole 180) p.longitude × IsCourse p.course

valid_coordinate-IsWithin :
    (limit : ℕ) (v : Float) → valid_coordinate v limit ≡ true → IsWithin limit v
unfolding valid_coordinate float_le
valid_coordinate-IsWithin limit nan h = absurd (cc)
valid_coordinate-IsWithin limit (infinite true) h = absurd (cc)
valid_coordinate-IsWithin limit (infinite false) h = absurd (cc)
valid_coordinate-IsWithin limit (finite true m) h = ground arith
valid_coordinate-IsWithin limit (finite false m) h = ground arith

float_lt-IsBelow :
    (limit : ℕ) (v : Float)
    → (float_le (finite false 0) v && float_lt v (finite false limit)) ≡ true
    → IsBelow limit v
unfolding float_le float_eq
float_lt-IsBelow limit nan h = absurd (cc)
float_lt-IsBelow limit (infinite true) h = absurd (cc)
float_lt-IsBelow limit (infinite false) h = absurd (cc)
float_lt-IsBelow limit (finite true m) h = ground arith
float_lt-IsBelow limit (finite false m) h = ground arith

valid_course-IsCourse : (o : Option Float) → valid_course o ≡ true → IsCourse o
unfolding valid_course
valid_course-IsCourse none h = tt
valid_course-IsCourse (some v) h = float_lt-IsBelow (whole 360) v h

valid_position-course : (p : Position) → valid_position p ≡ true → valid_course p.course ≡ true
unfolding valid_position
valid_position-course p h = ground arith

valid_position-latitude :
    (p : Position) → valid_position p ≡ true → valid_coordinate p.latitude (whole 90) ≡ true
unfolding valid_position
valid_position-latitude p h = ground arith

valid_position-longitude :
    (p : Position) → valid_position p ≡ true → valid_coordinate p.longitude (whole 180) ≡ true
unfolding valid_position
valid_position-longitude p h = ground arith

pub valid_position-IsPlaced : (p : Position) → valid_position p ≡ true → IsPlaced (some p)
valid_position-IsPlaced p valid = (
  valid_coordinate-IsWithin (whole 90) p.latitude (valid_position-latitude p valid),
  valid_coordinate-IsWithin (whole 180) p.longitude (valid_position-longitude p valid),
  valid_course-IsCourse p.course (valid_position-course p valid),
)

pub valid_name-bounds :
    (name : Text) → valid_name name ≡ true → (name ≢ []) × (rune_count name ≤ 64)
unfolding valid_name
valid_name-bounds [] h = absurd (cc)
valid_name-bounds (c ∷ name) h = (λ e. absurd (cc), ground arith)
