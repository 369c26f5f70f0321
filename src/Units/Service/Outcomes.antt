-- ===== src/Units/Service/Outcomes.antt =====
-- What follows for a caller of Patch, Update and SetPosition.
use unit_management.Base.{◌≡◌, ◌⊎◌, inl, inr, none, some, [], arith, ok, err}
use unit_management.Database.{Table, IsTable}
use unit_management.Models.{Uuid, User, UnitRow, UnitPosition}
use unit_management.Units.Input.{unit_synced, internal, Input, apply, input_of}
use unit_management.Units.Input.Validity.{IsValid, apply-input_of}
use unit_management.Units.Input.Same.{changed_self}
use unit_management.Units.Service.{State, patch, patch_tables, write_patch}
use unit_management.Units.Service.Lookup.{
  KeptUnit, row, read_failed, read_missing, read_found, get-Read,
}

module _ {U P : Type 0} (units : Table U UnitRow) (positions : Table P UnitPosition)
    (unit_laws : IsTable KeptUnit units) where
  -- Over lawful tables, a patch of a unit that is mirrored from another instance answers that the
  -- unit is synced, or that the database failed, and changes nothing.
  pub patch-refuses_synced :
      (s : State U P) (id : Uuid) (edit : Input → Input) (by : User) (u : UnitRow) (remote : Uuid)
      → row units positions s.tables id ≡ some u
      → u.sync_remote_id ≡ some remote
      → (patch units positions s id edit by ≡ (err unit_synced, s))
        ⊎ (patch units positions s id edit by ≡ (err internal, s))
  unfolding patch patch_tables
  patch-refuses_synced s id edit by u remote found synced =
      elim (get-Read units positions unit_laws s.tables id) [
        | read_failed e ↦ inr (ground arith)
        | read_missing e missing ↦ absurd (ground arith)
        | read_found v e found' ↦ inl (let same : v ≡ u = ground arith in ground arith)
      ]

  -- Over lawful tables, a patch that leaves the fields of a valid local unit as they are answers
  -- the unit with no changed field, or that the database failed, and changes nothing.
  pub patch-idle :
      (s : State U P) (id : Uuid) (edit : Input → Input) (by : User) (u : UnitRow)
      → row units positions s.tables id ≡ some u
      → IsValid u
      → u.sync_remote_id ≡ none
      → edit (input_of u) ≡ input_of u
      → (patch units positions s id edit by ≡ (ok (u, []), s))
        ⊎ (patch units positions s id edit by ≡ (err internal, s))
  unfolding patch patch_tables write_patch
  patch-idle s id edit by u found valid is_local same =
      elim (get-Read units positions unit_laws s.tables id) [
        | read_failed e ↦ inr (ground arith)
        | read_missing e missing ↦ absurd (ground arith)
        | read_found v e found' ↦
            let is_u : v ≡ u = ground arith in
            let fixed : apply u (edit (input_of u)) ≡ ok u = rw same (apply-input_of u valid) in
            inl (ground (arith, changed_self u valid))
      ]
