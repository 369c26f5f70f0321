-- ===== src/Units/Input/Normal.antt =====
-- The normal forms of symbols and tactical names: normalizing yields one, and keeps one as it is.
use unit_management.Base.{
  ◌≡◌, Bool, true, false, ◌||◌, Option, none, some, List, arith, ◌⊎◌, if◌then◌else◌, all, All, ok,
  err,
}
use unit_management.Text.{Text, is_empty, trim_space}
use unit_management.Text.Trim.{trim_space-trim_space}
use unit_management.Models.{UnitSymbol, TacticalName, symbol_fields, tactical_name_fields}
use unit_management.Units.Input.{UnitError, symbol_id_pattern, tactical_part, normalize_field}

-- A part of a symbol or a tactical name as it is stored: trimmed, and empty or acceptable.
pub record IsNormal (accept : Text → Bool) (f : Text) : Type 0 where
  pub trimmed : trim_space f ≡ f
  pub accepted : (is_empty f || accept f) ≡ true

module _ (accept : Text → Bool) (e : UnitError) (f : Text) where
  pub outcome :
      (normalize_field accept e f ≡ ok (trim_space f)) ⊎ (normalize_field accept e f ≡ err e)
  unfolding normalize_field
  outcome = ground arith

  accepted_of_ok :
      normalize_field accept e f ≡ ok (trim_space f)
      → (is_empty (trim_space f) || accept (trim_space f)) ≡ true
  unfolding normalize_field
  accepted_of_ok h = ground arith

  pub IsNormal-of_ok :
      normalize_field accept e f ≡ ok (trim_space f) → IsNormal accept (trim_space f)
  IsNormal-of_ok h = record { trimmed = trim_space-trim_space f; accepted = accepted_of_ok h }

  pub fixed : IsNormal accept f → normalize_field accept e f ≡ ok f
  unfolding normalize_field
  fixed n = rw (n.trimmed, n.accepted)

-- The value of a pointer that is nil when all its parts are empty.
abbrev pub unless_empty : {A : Type 0} → List Text → A → Option A
unless_empty fs a = if all is_empty fs then none else some a

abbrev pub IsNormalSymbol : Option UnitSymbol → Type 0
IsNormalSymbol none = Unit
IsNormalSymbol (some s) =
    All (IsNormal symbol_id_pattern) (symbol_fields s) × (all is_empty (symbol_fields s) ≡ false)

abbrev pub IsNormalTacticalName : Option TacticalName → Type 0
IsNormalTacticalName none = Unit
IsNormalTacticalName (some n) =
    All (IsNormal tactical_part) (tactical_name_fields n)
    × (all is_empty (tactical_name_fields n) ≡ false)
