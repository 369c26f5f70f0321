-- ===== src/Units/Input/Symbol.antt =====
-- normalizeSymbol yields a normal symbol, and keeps a normal symbol as it is.
use mathlib.Core.Path.{subst}
use unit_management.Base.{
  ◌≡◌, refl, sym, Option, none, some, arith, inl, inr, all, All, ok, Bool-cases,
}
use unit_management.Text.{Text, is_empty, trim_space}
use unit_management.Models.{UnitSymbol, symbol_fields}
use unit_management.Units.Input.{
  invalid_symbol, symbol_id_pattern, normalize_field, normalize_symbol,
}
use unit_management.Units.Input.Normal.{
  IsNormal, IsNormalSymbol, outcome, IsNormal-of_ok, fixed, unless_empty,
}

trimmed : UnitSymbol → UnitSymbol
trimmed s = record {
  grundzeichen = trim_space s.grundzeichen;
  organisation = trim_space s.organisation;
  fachaufgabe = trim_space s.fachaufgabe;
  einheit = trim_space s.einheit;
  verwaltungsstufe = trim_space s.verwaltungsstufe;
  funktion = trim_space s.funktion;
  symbol = trim_space s.symbol;
}

abbrev Accepted : Text → Type 0
Accepted f = normalize_field symbol_id_pattern invalid_symbol f ≡ ok (trim_space f)

Accepted-parts :
    (s : UnitSymbol) {o : Option UnitSymbol}
    → normalize_symbol (some s) ≡ ok o
    → (Accepted s.grundzeichen
        × Accepted s.organisation
        × Accepted s.fachaufgabe
        × Accepted s.einheit
        × Accepted s.verwaltungsstufe
        × Accepted s.funktion
        × Accepted s.symbol)
      × (o ≡ unless_empty (symbol_fields (trimmed s)) (trimmed s))
unfolding normalize_symbol trimmed
Accepted-parts s h =
    let part = outcome symbol_id_pattern invalid_symbol in
    ground (
      arith,
      part s.grundzeichen,
      part s.organisation,
      part s.fachaufgabe,
      part s.einheit,
      part s.verwaltungsstufe,
      part s.funktion,
      part s.symbol,
    )

unless_empty-IsNormal :
    (s : UnitSymbol)
    → All (IsNormal symbol_id_pattern) (symbol_fields s)
    → IsNormalSymbol (unless_empty (symbol_fields s) s)
unless_empty-IsNormal s normal = elim (Bool-cases (all is_empty (symbol_fields s))) [
  | inl empty ↦ rw empty tt
  | inr set ↦ rw set (normal, set)
]

pub normalize_symbol-IsNormal :
    (s o : Option UnitSymbol) → normalize_symbol s ≡ ok o → IsNormalSymbol o
unfolding normalize_symbol trimmed
normalize_symbol-IsNormal none none h = tt
normalize_symbol-IsNormal none (some o) h = cc
normalize_symbol-IsNormal (some s) o h =
    let ((a, b, c, d, e, f, g), same) = Accepted-parts s h in
    let normal = IsNormal-of_ok symbol_id_pattern invalid_symbol in
    subst IsNormalSymbol (sym same) (
      unless_empty-IsNormal (trimmed s) (
        normal _ a,
        (normal _ b, (normal _ c, (normal _ d, (normal _ e, (normal _ f, (normal _ g, tt)))))),
      ))

pub normalize_symbol_fixed : (s : Option UnitSymbol) → IsNormalSymbol s → normalize_symbol s ≡ ok s
unfolding normalize_symbol
normalize_symbol_fixed none h = refl
normalize_symbol_fixed (some s) ((a, (b, (c, (d, (e, (f, (g, _))))))), set) =
    let fix = fixed symbol_id_pattern invalid_symbol in
    rw (fix _ a, fix _ b, fix _ c, fix _ d, fix _ e, fix _ f, fix _ g) (rw set)
