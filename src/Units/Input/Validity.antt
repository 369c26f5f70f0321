-- ===== src/Units/Input/Validity.antt =====
-- What `apply` accepts and writes, and that it leaves a valid unit's own fields as they are.
use unit_management.Base.{
  ℕ, ◌≡◌, ◌≢◌, ◌≤◌, true, Option, none, some, [], arith, ok, Result-cases, inl, inr,
}
use unit_management.Text.{trim_space, rune_count}
use unit_management.Text.Trim.{trim_space-trim_space}
use unit_management.Models.{Uuid, UnitRow, UnitSymbol, TacticalName}
use unit_management.Units.Input.{
  Position, Input, normalize_symbol, normalize_tactical_name, valid_position, valid_name, apply,
  apply_position, input_of, position_of,
}
use unit_management.Units.Input.Bounds.{IsPlaced, valid_position-IsPlaced, valid_name-bounds}
use unit_management.Units.Input.Normal.{IsNormalSymbol, IsNormalTacticalName}
use unit_management.Units.Input.Symbol.{normalize_symbol-IsNormal, normalize_symbol_fixed}
use unit_management.Units.Input.CallSign.{
  normalize_tactical_name-IsNormal, normalize_tactical_name_fixed,
}

-- The position columns hold no position, or all of a valid one.
abbrev pub IsLocated : UnitRow → Option Position → Type 0
IsLocated u none =
    (u.latitude ≡ none)
    × (u.longitude ≡ none)
    × (u.height ≡ none)
    × (u.accuracy ≡ none)
    × (u.speed ≡ none)
    × (u.course ≡ none)
    × (u.position_timestamp ≡ none)
IsLocated u (some p) =
    (u.latitude ≡ some p.latitude)
    × (u.longitude ≡ some p.longitude)
    × (u.height ≡ p.height)
    × (u.accuracy ≡ p.accuracy)
    × (u.speed ≡ p.speed)
    × (u.course ≡ p.course)
    × (u.position_timestamp ≡ some p.timestamp)
    × (valid_position p ≡ true)

IsLocated-IsPlaced : (u : UnitRow) (o : Option Position) → IsLocated u o → IsPlaced o
IsLocated-IsPlaced u none h = tt
IsLocated-IsPlaced u (some p) (_, _, _, _, _, _, _, valid) = valid_position-IsPlaced p valid

-- What holds of every stored unit.
pub record IsValid (u : UnitRow) : Type 0 where
  pub trimmed : trim_space u.name ≡ u.name
  pub named : valid_name u.name ≡ true
  pub sized : (u.name ≢ []) × (rune_count u.name ≤ 64)
  pub symbol : IsNormalSymbol u.symbol
  pub tactical_name : IsNormalTacticalName u.tactical_name
  pub position : Option Position
  pub located : IsLocated u position
  pub placed : IsPlaced position

apply_position-IsLocated :
    (u : UnitRow) (o : Option Position) {u' : UnitRow} → apply_position u o ≡ ok u' → IsLocated u' o
unfolding apply_position
apply_position-IsLocated u none h = ground arith
apply_position-IsLocated u (some p) h = ground arith

apply_position_fixed :
    (u : UnitRow) (o : Option Position) → IsLocated u o → apply_position u o ≡ ok u
unfolding apply_position
apply_position_fixed u none h = ground arith
apply_position_fixed u (some p) h = ground arith

pub position_of-eq : (u : UnitRow) (o : Option Position) → IsLocated u o → position_of u ≡ o
unfolding position_of
position_of-eq u none h = ground arith
position_of-eq u (some p) h = ground arith

-- The parts of a successful `apply`.
record Applied (u : UnitRow) (i : Input) (u' : UnitRow) : Type 0 where
  named : valid_name (trim_space i.name) ≡ true
  symbol : Option UnitSymbol
  symbol_ok : normalize_symbol i.symbol ≡ ok symbol
  tactical_name : Option TacticalName
  tactical_name_ok : normalize_tactical_name i.tactical_name ≡ ok tactical_name
  located :
      apply_position
        (record u { name = trim_space i.name; symbol = symbol; tactical_name = tactical_name })
        i.position
      ≡ ok u'

apply-Applied : (u : UnitRow) (i : Input) {u' : UnitRow} → apply u i ≡ ok u' → Applied u i u'
unfolding apply
apply-Applied u i h = elim (Result-cases (normalize_symbol i.symbol)) [
  | inl (s, s_ok) ↦ elim (Result-cases (normalize_tactical_name i.tactical_name)) [
    | inl (t, t_ok) ↦ record {
      named = ground arith;
      symbol = s;
      symbol_ok = s_ok;
      tactical_name = t;
      tactical_name_ok = t_ok;
      located = ground arith;
    }
    | inr (e, bad) ↦ absurd (ground arith)
  ]
  | inr (e, bad) ↦ absurd (ground arith)
]

apply_position-fields :
    (u : UnitRow) (o : Option Position) {u' : UnitRow}
    → apply_position u o ≡ ok u'
    → (u'.name ≡ u.name)
      × (u'.symbol ≡ u.symbol)
      × (u'.tactical_name ≡ u.tactical_name)
      × (u'.id ≡ u.id)
      × (u'.created_by_id ≡ u.created_by_id)
      × (u'.updated_by_id ≡ u.updated_by_id)
      × (u'.sync_remote_id ≡ u.sync_remote_id)
unfolding apply_position
apply_position-fields u none h = ground arith
apply_position-fields u (some p) h = ground arith

-- A unit that `apply` accepts has a trimmed name of 1 to 64 characters, a normal symbol and
-- tactical name, and no position or all of a valid one, with a latitude within 90 degrees, a
-- longitude within 180 and a course, if any, from 0 to below 360.
pub apply-IsValid : (u : UnitRow) (i : Input) {u' : UnitRow} → apply u i ≡ ok u' → IsValid u'
apply-IsValid u i {u'} h =
    let parts = apply-Applied u i h in
    let (name, symbol, tactical_name, _, _, _, _) =
      apply_position-fields _ i.position parts.located in
    record {
      trimmed = rw name (trim_space-trim_space i.name);
      named = rw name parts.named;
      sized = rw name (valid_name-bounds (trim_space i.name) parts.named);
      symbol = rw symbol (normalize_symbol-IsNormal i.symbol parts.symbol parts.symbol_ok);
      tactical_name = rw tactical_name (
          normalize_tactical_name-IsNormal i.tactical_name parts.tactical_name
            parts.tactical_name_ok);
      position = i.position;
      located = apply_position-IsLocated _ i.position parts.located;
      placed =
          IsLocated-IsPlaced u' i.position (apply_position-IsLocated _ i.position parts.located);
    }

-- `apply` changes no column that is not an editable field.
pub apply-keeps :
    (u : UnitRow) (i : Input) {u' : UnitRow}
    → apply u i ≡ ok u'
    → (u'.id ≡ u.id)
      × (u'.created_by_id ≡ u.created_by_id)
      × (u'.updated_by_id ≡ u.updated_by_id)
      × (u'.sync_remote_id ≡ u.sync_remote_id)
apply-keeps u i h =
    let parts = apply-Applied u i h in
    let (_, _, _, id, created, updated, remote) =
      apply_position-fields _ i.position parts.located in
    (id, created, updated, remote)

-- The position that `apply` writes is the input's.
pub apply-IsLocated :
    (u : UnitRow) (i : Input) {u' : UnitRow} → apply u i ≡ ok u' → IsLocated u' i.position
apply-IsLocated u i h = apply_position-IsLocated _ i.position (apply-Applied u i h).located

-- Applying a valid unit's own fields to it succeeds and changes nothing.
pub apply-input_of : (u : UnitRow) → IsValid u → apply u (input_of u) ≡ ok u
unfolding apply input_of
apply-input_of u v =
    rw
      (
        v.trimmed,
        v.named,
        normalize_symbol_fixed u.symbol v.symbol,
        normalize_tactical_name_fixed u.tactical_name v.tactical_name,
        position_of-eq u v.position v.located,
      )
      (apply_position_fixed u v.position v.located)

abbrev pub with_ids : UnitRow → Uuid → Option ℕ → Option ℕ → Option Uuid → UnitRow
with_ids u id created updated remote = record u {
  id = id;
  created_by_id = created;
  updated_by_id = updated;
  sync_remote_id = remote;
}

with_ids-IsLocated :
    (u : UnitRow) (id : Uuid) (created updated : Option ℕ) (remote : Option Uuid)
    (o : Option Position)
    → IsLocated u o
    → IsLocated (with_ids u id created updated remote) o
with_ids-IsLocated u id created updated remote none h = h
with_ids-IsLocated u id created updated remote (some p) h = h

-- Validity does not depend on the columns that hold no editable field.
pub with_ids-IsValid :
    (u : UnitRow) (id : Uuid) (created updated : Option ℕ) (remote : Option Uuid)
    → IsValid u
    → IsValid (with_ids u id created updated remote)
with_ids-IsValid u id created updated remote v = record {
  trimmed = v.trimmed;
  named = v.named;
  sized = v.sized;
  symbol = v.symbol;
  tactical_name = v.tactical_name;
  position = v.position;
  located = with_ids-IsLocated u id created updated remote v.position v.located;
  placed = v.placed;
}
