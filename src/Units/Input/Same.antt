-- ===== src/Units/Input/Same.antt =====
-- A valid unit does not differ from itself. (It needs validity: NaN differs from itself.)
use unit_management.Base.{
  ◌≡◌, refl, true, false, Option, none, some, [], arith, option_eq, ==_refl, ℕ,
}
use unit_management.Text.{text_eq_refl}
use unit_management.Float.{
  Float, nan, infinite, finite, float_eq, float_le, is_nan, whole, max_float,
}
use unit_management.Models.{UnitRow, UnitSymbol, TacticalName, symbol_eq, tactical_name_eq}
use unit_management.Units.Input.{
  Position, valid_coordinate, valid_non_negative, valid_height, valid_course, valid_position,
  same_columns, same_position, changed,
}
use unit_management.Units.Input.Validity.{IsLocated, IsValid}

float_eq_refl : (v : Float) → is_nan v ≡ false → float_eq v v ≡ true
unfolding float_eq
float_eq_refl nan h = cc
float_eq_refl (infinite true) h = refl
float_eq_refl (infinite false) h = refl
float_eq_refl (finite true m) h = ==_refl m
float_eq_refl (finite false m) h = ==_refl m

number_of_coordinate : (v : Float) (limit : ℕ) → valid_coordinate v limit ≡ true → is_nan v ≡ false
unfolding valid_coordinate
number_of_coordinate v limit h = ground arith

-- A comparison that holds is between numbers.
number_of_le : (a v : Float) → float_le a v ≡ true → is_nan v ≡ false
unfolding float_le
number_of_le nan v h = cc
number_of_le (infinite true) nan h = cc
number_of_le (infinite false) nan h = cc
number_of_le (finite true m) nan h = cc
number_of_le (finite false m) nan h = cc
number_of_le a (infinite t) h = refl
number_of_le a (finite t n) h = refl

non_negative_refl : (o : Option Float) → valid_non_negative o ≡ true → option_eq float_eq o o ≡ true
unfolding valid_non_negative
non_negative_refl none h = refl
non_negative_refl (some v) h = float_eq_refl v (number_of_le (finite false 0) v (ground arith))

height_refl : (o : Option Float) → valid_height o ≡ true → option_eq float_eq o o ≡ true
unfolding valid_height
height_refl none h = refl
height_refl (some v) h = float_eq_refl v (number_of_coordinate v max_float h)

course_refl : (o : Option Float) → valid_course o ≡ true → option_eq float_eq o o ≡ true
unfolding valid_course
course_refl none h = refl
course_refl (some v) h = float_eq_refl v (number_of_le (finite false 0) v (ground arith))

same_columns_of_IsLocated :
    (a b : UnitRow) (p : Position)
    → IsLocated a (some p)
    → IsLocated b (some p)
    → same_columns a b ≡ true
unfolding same_columns valid_position
same_columns_of_IsLocated a b p (lat, lon, height, acc, speed, course, time, good)
      (lat', lon', height', acc', speed', course', time', _) =
    rw
      (
        lat, lon, height, acc, speed, course, time, lat', lon', height', acc', speed', course',
        time',
      )
      (ground (
        arith,
        float_eq_refl p.latitude,
        float_eq_refl p.longitude,
        number_of_coordinate p.latitude (whole 90),
        number_of_coordinate p.longitude (whole 180),
        height_refl p.height,
        non_negative_refl p.accuracy,
        non_negative_refl p.speed,
        course_refl p.course,
        ==_refl p.timestamp,
      ))

-- Rows that hold the same valid position have the same position.
pub same_position_of_IsLocated :
    (a b : UnitRow) (o : Option Position) → IsLocated a o → IsLocated b o → same_position a b ≡ true
unfolding same_position
same_position_of_IsLocated a b none h k = ground arith
same_position_of_IsLocated a b (some p) h k = ground (arith, same_columns_of_IsLocated a b p h k)

symbol_eq_refl : (o : Option UnitSymbol) → option_eq symbol_eq o o ≡ true
unfolding symbol_eq
symbol_eq_refl none = refl
symbol_eq_refl (some s) = simp text_eq_refl

tactical_name_eq_refl : (o : Option TacticalName) → option_eq tactical_name_eq o o ≡ true
unfolding tactical_name_eq
tactical_name_eq_refl none = refl
tactical_name_eq_refl (some s) = simp text_eq_refl

pub changed_self : (u : UnitRow) → IsValid u → changed u u ≡ []
unfolding changed
changed_self u v =
    rw
      (
        text_eq_refl u.name,
        same_position_of_IsLocated u u v.position v.located v.located,
        symbol_eq_refl u.symbol,
        tactical_name_eq_refl u.tactical_name,
      )
      refl
