-- ===== src/Units/Input/CallSign.antt =====
-- normalizeTacticalName yields a normal name, and keeps a normal name as it is.
use mathlib.Core.Path.{subst}
use unit_management.Base.{
  ◌≡◌, refl, sym, Option, none, some, arith, inl, inr, all, All, ok, Bool-cases,
}
use unit_management.Text.{Text, is_empty, trim_space}
use unit_management.Models.{TacticalName, tactical_name_fields}
use unit_management.Units.Input.{
  invalid_tactical_name, tactical_part, normalize_field, normalize_tactical_name,
}
use unit_management.Units.Input.Normal.{
  IsNormal, IsNormalTacticalName, outcome, IsNormal-of_ok, fixed, unless_empty,
}

trimmed : TacticalName → TacticalName
trimmed n = record {
  organisation = trim_space n.organisation;
  regional_association = trim_space n.regional_association;
  local_association = trim_space n.local_association;
  function = trim_space n.function;
  number = trim_space n.number;
}

abbrev Accepted : Text → Type 0
Accepted f = normalize_field tactical_part invalid_tactical_name f ≡ ok (trim_space f)

Accepted-parts :
    (n : TacticalName) {o : Option TacticalName}
    → normalize_tactical_name (some n) ≡ ok o
    → (Accepted n.organisation
        × Accepted n.regional_association
        × Accepted n.local_association
        × Accepted n.function
        × Accepted n.number)
      × (o ≡ unless_empty (tactical_name_fields (trimmed n)) (trimmed n))
unfolding normalize_tactical_name trimmed
Accepted-parts n h =
    let part = outcome tactical_part invalid_tactical_name in
    ground (
      arith,
      part n.organisation,
      part n.regional_association,
      part n.local_association,
      part n.function,
      part n.number,
    )

unless_empty-IsNormal :
    (n : TacticalName)
    → All (IsNormal tactical_part) (tactical_name_fields n)
    → IsNormalTacticalName (unless_empty (tactical_name_fields n) n)
unless_empty-IsNormal n normal = elim (Bool-cases (all is_empty (tactical_name_fields n))) [
  | inl empty ↦ rw empty tt
  | inr set ↦ rw set (normal, set)
]

pub normalize_tactical_name-IsNormal :
    (n o : Option TacticalName) → normalize_tactical_name n ≡ ok o → IsNormalTacticalName o
unfolding normalize_tactical_name trimmed
normalize_tactical_name-IsNormal none none h = tt
normalize_tactical_name-IsNormal none (some o) h = cc
normalize_tactical_name-IsNormal (some n) o h =
    let ((a, b, c, d, e), same) = Accepted-parts n h in
    let normal = IsNormal-of_ok tactical_part invalid_tactical_name in
    subst IsNormalTacticalName (sym same) (
      unless_empty-IsNormal (trimmed n)
        (normal _ a, (normal _ b, (normal _ c, (normal _ d, (normal _ e, tt))))))

pub normalize_tactical_name_fixed :
    (n : Option TacticalName) → IsNormalTacticalName n → normalize_tactical_name n ≡ ok n
unfolding normalize_tactical_name
normalize_tactical_name_fixed none h = refl
normalize_tactical_name_fixed (some n) ((a, (b, (c, (d, (e, _))))), set) =
    let fix = fixed tactical_part invalid_tactical_name in
    rw (fix _ a, fix _ b, fix _ c, fix _ d, fix _ e) (rw set)
