-- ===== src/Units/Input.antt =====
-- internal/units/units.go: the editable fields of a unit, their validation, and which of them differ
-- between two versions of a unit.
mod Normal
mod Symbol
mod CallSign
pub mod Same
pub mod Bounds
pub mod Validity
pub mod Refusals
use unit_management.Base.{
  ℕ, Bool, true, false, ◌&&◌, ◌||◌, not, Option, none, some, List, [], ◌∷◌, ◌++◌, leb, ltb, ◌==◌,
  if◌then◌else◌, all, length, is_some, option_eq, Result, ok, err, ◌>>=◌, ◌>>◌, guard,
}
use unit_management.Text.{
  Text, text_eq, is_empty, trim_space, rune_count, contains_func, is_control,
}
use unit_management.Float.{
  Float, finite, float_eq, float_le, float_lt, is_nan, negate, whole, max_float,
}
use unit_management.Models.{
  Time, UnitRow, UnitSymbol, TacticalName, symbol_eq, symbol_fields, tactical_name_eq,
  tactical_name_fields, has_position,
}

-- The errors of the package; `internal` stands for a wrapped database error.
pub data UnitError : Type 0 where
  unit_not_found name_taken invalid_name invalid_position invalid_symbol : UnitError
  invalid_tactical_name unit_synced not_mirrored internal : UnitError

abbrev pub max_name_length : ℕ
max_name_length = 64

abbrev pub max_tactical_name_part_length : ℕ
max_tactical_name_part_length = 32

pub record Position : Type 0 where
  pub latitude : Float
  pub longitude : Float
  pub height : Option Float
  pub accuracy : Option Float
  pub speed : Option Float
  pub course : Option Float
  pub timestamp : Time

pub record Input : Type 0 where
  pub name : Text
  pub position : Option Position
  pub symbol : Option UnitSymbol
  pub tactical_name : Option TacticalName

abbrev id_char : ℕ → Bool
id_char c = leb b'a' c && leb c b'z' || leb b'0' c && leb c b'9' || c == b'-'

-- ^[a-z0-9-]{1,64}$
unfoldable pub symbol_id_pattern : Text → Bool
symbol_id_pattern s = leb 1 (length s) && leb (length s) 64 && all id_char s

unfoldable pub valid_coordinate : Float → ℕ → Bool
valid_coordinate v limit =
    not (is_nan v) && float_le (negate (finite false limit)) v && float_le v (finite false limit)

unfoldable pub valid_non_negative : Option Float → Bool
valid_non_negative none = true
valid_non_negative (some v) = float_le (finite false 0) v && float_le v (finite false max_float)

-- One turn of the loop over the fields: the trimmed field, unless it is set and not acceptable.
unfoldable pub normalize_field : (Text → Bool) → UnitError → Text → Result UnitError Text
normalize_field accept e f =
    let f' = trim_space f in if is_empty f' || accept f' then ok f' else err e

unfoldable pub normalize_symbol : Option UnitSymbol → Result UnitError (Option UnitSymbol)
unfolding symbol_fields normalize_field
normalize_symbol none = ok none
normalize_symbol (some s) = do
  grundzeichen ← normalize_field symbol_id_pattern invalid_symbol s.grundzeichen
  organisation ← normalize_field symbol_id_pattern invalid_symbol s.organisation
  fachaufgabe ← normalize_field symbol_id_pattern invalid_symbol s.fachaufgabe
  einheit ← normalize_field symbol_id_pattern invalid_symbol s.einheit
  verwaltungsstufe ← normalize_field symbol_id_pattern invalid_symbol s.verwaltungsstufe
  funktion ← normalize_field symbol_id_pattern invalid_symbol s.funktion
  symbol ← normalize_field symbol_id_pattern invalid_symbol s.symbol
  let out : UnitSymbol = record {
    grundzeichen = grundzeichen;
    organisation = organisation;
    fachaufgabe = fachaufgabe;
    einheit = einheit;
    verwaltungsstufe = verwaltungsstufe;
    funktion = funktion;
    symbol = symbol;
  }
  ok (if all is_empty (symbol_fields out) then none else some out)

unfoldable pub tactical_part : Text → Bool
tactical_part f =
    leb (rune_count f) max_tactical_name_part_length && not (contains_func f is_control)

unfoldable pub normalize_tactical_name :
    Option TacticalName → Result UnitError (Option TacticalName)
unfolding tactical_name_fields normalize_field
normalize_tactical_name none = ok none
normalize_tactical_name (some n) = do
  organisation ← normalize_field tactical_part invalid_tactical_name n.organisation
  regional_association ← normalize_field tactical_part invalid_tactical_name n.regional_association
  local_association ← normalize_field tactical_part invalid_tactical_name n.local_association
  function ← normalize_field tactical_part invalid_tactical_name n.function
  number ← normalize_field tactical_part invalid_tactical_name n.number
  let out : TacticalName = record {
    organisation = organisation;
    regional_association = regional_association;
    local_association = local_association;
    function = function;
    number = number;
  }
  ok (if all is_empty (tactical_name_fields out) then none else some out)

unfoldable pub valid_height : Option Float → Bool
valid_height none = true
valid_height (some v) = valid_coordinate v max_float

unfoldable pub valid_course : Option Float → Bool
valid_course none = true
valid_course (some v) = float_le (finite false 0) v && float_lt v (finite false (whole 360))

-- The test of `apply` on a position.
unfoldable pub valid_position : Position → Bool
valid_position p =
    valid_coordinate p.latitude (whole 90)
    && valid_coordinate p.longitude (whole 180)
    && valid_height p.height
    && valid_non_negative p.accuracy
    && valid_non_negative p.speed
    && valid_course p.course

-- apply, on the position columns
unfoldable pub apply_position : UnitRow → Option Position → Result UnitError UnitRow
apply_position unit none = ok (record unit {
  latitude = none;
  longitude = none;
  height = none;
  accuracy = none;
  speed = none;
  course = none;
  position_timestamp = none;
})
apply_position unit (some p) = do
  guard (valid_position p) invalid_position
  ok (record unit {
    latitude = some p.latitude;
    longitude = some p.longitude;
    height = p.height;
    accuracy = p.accuracy;
    speed = p.speed;
    course = p.course;
    position_timestamp = some p.timestamp;
  })

unfoldable pub valid_name : Text → Bool
valid_name name = not (is_empty name) && leb (rune_count name) max_name_length

-- What `apply` has written when it returns an error is never read.
unfoldable pub apply : UnitRow → Input → Result UnitError UnitRow
unfolding apply_position valid_name
apply unit input = do
  let name = trim_space input.name
  guard (valid_name name) invalid_name
  symbol ← normalize_symbol input.symbol
  tactical_name ← normalize_tactical_name input.tactical_name
  apply_position (record unit { name = name; symbol = symbol; tactical_name = tactical_name })
      input.position

-- The position of inputOf. It reads through the pointer to the time of a row that has coordinates,
-- which every valid row with coordinates has; a row without one has no position here.
unfoldable pub position_of : UnitRow → Option Position
position_of u = elim u.latitude [
  | none ↦ none
  | some latitude ↦ elim u.longitude [
    | none ↦ none
    | some longitude ↦ elim u.position_timestamp [
      | none ↦ none
      | some timestamp ↦ some (record {
        latitude = latitude;
        longitude = longitude;
        height = u.height;
        accuracy = u.accuracy;
        speed = u.speed;
        course = u.course;
        timestamp = timestamp;
      })
    ]
  ]
]

unfoldable pub input_of : UnitRow → Input
input_of u = record {
  name = u.name;
  position = position_of u;
  symbol = u.symbol;
  tactical_name = u.tactical_name;
}

pub data Field : Type 0 where
  field_name field_position field_symbol field_tactical_name : Field

-- The comparison of two rows that both have a position.
unfoldable pub same_columns : UnitRow → UnitRow → Bool
same_columns a b =
    option_eq float_eq a.latitude b.latitude
    && option_eq float_eq a.longitude b.longitude
    && option_eq float_eq a.height b.height
    && option_eq float_eq a.accuracy b.accuracy
    && option_eq float_eq a.speed b.speed
    && option_eq float_eq a.course b.course
    && option_eq ◌==◌ a.position_timestamp b.position_timestamp

unfoldable pub same_position : UnitRow → UnitRow → Bool
unfolding same_columns has_position
same_position a b =
    if has_position a
    then (if has_position b then same_columns a b else false)
    else not (has_position b)

abbrev unless : Bool → Field → List Field
unless true f = []
unless false f = f ∷ []

unfoldable pub changed : UnitRow → UnitRow → List Field
unfolding same_position
changed a b =
    unless (text_eq a.name b.name) field_name
    ++ (unless (same_position a b) field_position
        ++ (unless (option_eq symbol_eq a.symbol b.symbol) field_symbol
            ++ unless (option_eq tactical_name_eq a.tactical_name b.tactical_name)
                field_tactical_name))
