-- ===== src/Units/Input/Refusals.antt =====
-- The errors with which `apply` refuses an input.
use unit_management.Base.{
  ◌≢◌, Bool, ◌||◌, Option, none, some, Errs, >>=-Errs, guard-Errs, Bool-cases, inl, inr,
}
use unit_management.Text.{Text, is_empty, trim_space}
use unit_management.Models.{UnitRow, UnitSymbol, TacticalName}
use unit_management.Units.Input.{
  UnitError, invalid_name, invalid_position, invalid_symbol, invalid_tactical_name, not_mirrored,
  Input, Position, normalize_field, normalize_symbol, normalize_tactical_name, apply_position,
  apply, symbol_id_pattern, tactical_part, valid_position, valid_name,
}

abbrev pub IsRefusal : UnitError → Type 0
IsRefusal e = (e ≢ not_mirrored)

field-Errs :
    (accept : Text → Bool) (e : UnitError) (f : Text)
    → IsRefusal e
    → Errs IsRefusal (normalize_field accept e f)
unfolding normalize_field
field-Errs accept e f h = elim (Bool-cases (is_empty (trim_space f) || accept (trim_space f))) [
  | inl t ↦ rw t tt
  | inr t ↦ rw t h
]

symbol-Errs : (o : Option UnitSymbol) → Errs IsRefusal (normalize_symbol o)
unfolding normalize_symbol
symbol-Errs none = tt
symbol-Errs (some s) =
    let one = λ (f : Text). field-Errs symbol_id_pattern invalid_symbol f (λ h. absurd (cc)) in
    >>=-Errs IsRefusal _ _ (one s.grundzeichen) λ _.
      >>=-Errs IsRefusal _ _ (one s.organisation) λ _.
        >>=-Errs IsRefusal _ _ (one s.fachaufgabe) λ _. >>=-Errs IsRefusal _ _ (one s.einheit) λ _.
          >>=-Errs IsRefusal _ _ (one s.verwaltungsstufe) λ _.
            >>=-Errs IsRefusal _ _ (one s.funktion)
              λ _. >>=-Errs IsRefusal _ _ (one s.symbol) λ _. tt

tactical_name-Errs : (o : Option TacticalName) → Errs IsRefusal (normalize_tactical_name o)
unfolding normalize_tactical_name
tactical_name-Errs none = tt
tactical_name-Errs (some n) =
    let one = λ (f : Text). field-Errs tactical_part invalid_tactical_name f (λ h. absurd (cc)) in
    >>=-Errs IsRefusal _ _ (one n.organisation) λ _.
      >>=-Errs IsRefusal _ _ (one n.regional_association) λ _.
        >>=-Errs IsRefusal _ _ (one n.local_association) λ _.
          >>=-Errs IsRefusal _ _ (one n.function) λ _. >>=-Errs IsRefusal _ _ (one n.number) λ _. tt

position-Errs : (u : UnitRow) (o : Option Position) → Errs IsRefusal (apply_position u o)
unfolding apply_position
position-Errs u none = tt
position-Errs u (some p) =
    >>=-Errs IsRefusal _ _
      (guard-Errs IsRefusal (valid_position p) invalid_position (λ h. absurd (cc))) λ _. tt

pub apply-Errs : (u : UnitRow) (i : Input) → Errs IsRefusal (apply u i)
unfolding apply
apply-Errs u i =
    >>=-Errs IsRefusal _ _
      (guard-Errs IsRefusal (valid_name (trim_space i.name)) invalid_name (λ h. absurd (cc)))
      λ _. >>=-Errs IsRefusal _ _ (symbol-Errs i.symbol) λ symbol.
        >>=-Errs IsRefusal _ _ (tactical_name-Errs i.tactical_name) λ tactical_name.
          position-Errs
            (record u { name = trim_space i.name; symbol = symbol; tactical_name = tactical_name })
            i.position
