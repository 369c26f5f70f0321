-- ===== src/Units/Service/Patching.antt =====
-- What a patch does to the unit and to everything else, on every outcome.
use mathlib.Core.Path.{subst}
use unit_management.Base.{
  ◌≡◌, inl, inr, Option, none, some, List, [], ◌∷◌, ◌++◌, arith, ok, Result-cases, Option-cases,
}
use unit_management.Database.{Table, IsTable}
use unit_management.Models.{Uuid, User, UnitRow, UnitPosition}
use unit_management.Units.Input.{Input, Field, apply, changed, input_of, position_of, Position}
use unit_management.Units.Service.{
  Tables, wrap, patch_tables, write_patch, record_position, entry_of,
}
use unit_management.Units.Service.Lookup.{
  KeptUnit, KeptPosition, wrap-eq-ok, row, read_failed, read_missing, read_found, get-Read,
}

module _ {U P : Type 0} (units : Table U UnitRow) (positions : Table P UnitPosition) where
  -- What a transaction of Patch that succeeds has found and written.
  pub record Patched (t : Tables U P) (id : Uuid) (edit : Input → Input) (by : User)
      (fields : List Field) (t' : Tables U P) : Type 0 where
    pub before : UnitRow
    pub found : row units positions t id ≡ some before
    pub is_local : before.sync_remote_id ≡ none
    pub after : UnitRow
    pub applied : apply before (edit (input_of before)) ≡ ok after
    pub differ : fields ≡ changed before after
    pub writes :
        write_patch units positions t before after by (changed before after) ≡ ok (fields, t')

module _ {U P : Type 0} (units : Table U UnitRow) (positions : Table P UnitPosition)
    (laws : IsTable KeptUnit units) where
  write_patch-fields :
      (t : Tables U P) (before after : UnitRow) (by : User) (fs : List Field) {gs : List Field}
      {t' : Tables U P}
      → write_patch units positions t before after by fs ≡ ok (gs, t')
      → gs ≡ fs
  unfolding write_patch
  write_patch-fields t before after by [] h = ground arith
  write_patch-fields t before after by (f ∷ fs) h = ground arith

  pub patch_tables-Patched :
      (t : Tables U P) (id : Uuid) (edit : Input → Input) (by : User) {fields : List Field}
      {t' : Tables U P}
      → patch_tables units positions t id edit by ≡ ok (fields, t')
      → Patched units positions t id edit by fields t'
  unfolding patch_tables
  patch_tables-Patched t id edit by h = elim (get-Read units positions laws t id) [
    | read_failed e ↦ absurd (ground arith)
    | read_missing e _ ↦ absurd (ground arith)
    | read_found before e found ↦ elim (Option-cases before.sync_remote_id) [
      | inr (r, synced) ↦ absurd (ground arith)
      | inl is_local ↦ elim (Result-cases (apply before (edit (input_of before)))) [
        | inr (x, bad) ↦ absurd (ground arith)
        | inl (after, applied) ↦
            let w : write_patch units positions t before after by (changed before after)
                ≡ ok (_, _) =
              ground arith in
            record {
              before = before;
              found = found;
              is_local = is_local;
              after = after;
              applied = applied;
              writes = w;
              differ = write_patch-fields t before after by _ w;
            }
      ]
    ]
  ]

-- What a successful write to the history has added: an entry for the unit's position, if it has one.
pub data Recorded {P : Type 0} (positions : Table P UnitPosition) (before : P) (unit : UnitRow)
    (by : Option User) (after : P) : Type 0 where
  none_recorded : position_of unit ≡ none → after ≡ before → Recorded positions before unit by after
  recorded :
      (p : Position) (e : UnitPosition)
      → position_of unit ≡ some p
      → positions.rows after ≡ positions.rows before ++ e ∷ []
      → KeptPosition (entry_of unit.id p by) e
      → Recorded positions before unit by after

module _ {U P : Type 0} (units : Table U UnitRow) (positions : Table P UnitPosition)
    (laws : IsTable KeptPosition positions) where
  pub record_position-Recorded :
      (t : Tables U P) (unit : UnitRow) (by : Option User) {t' : Tables U P}
      → record_position units positions t unit by ≡ ok t'
      → (t'.units ≡ t.units) × Recorded positions t.positions unit by t'.positions
  unfolding record_position
  record_position-Recorded t unit by h = elim (Option-cases (position_of unit)) [
    | inl unknown ↦ (ground arith, none_recorded unknown (ground arith))
    | inr (p, known) ↦
        elim (Result-cases (wrap (positions.insert t.positions (entry_of unit.id p by)))) [
          | inr (e, bad) ↦ absurd (ground arith)
          | inl ((ps, e), good) ↦
              let (grown, kept) = laws.insert-rows t.positions _ ps e (wrap-eq-ok _ good) in
              (
                ground arith,
                recorded p e known
                    (subst (λ q. positions.rows q ≡ positions.rows t.positions ++ e ∷ [])
                      (ground arith) grown)
                    kept,
              )
        ]
  ]
