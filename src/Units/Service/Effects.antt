-- ===== src/Units/Service/Effects.antt =====
-- Patch as a whole: what each of its outcomes means for the unit, the other units, the history and
-- the event stream.
use mathlib.Core.Path.{subst}
use unit_management.Base.{
  ℕ, ◌≡◌, ◌≢◌, sym, ap, ◌∙◌, ◌⊎◌, inl, inr, true, false, Option, none, some, List, [], ◌∷◌, arith,
  ok, Result-cases, Bool-cases, map_if, ◌==◌,
}
use unit_management.Database.{Table, IsTable}
use unit_management.Models.{Uuid, User, UnitRow, UnitPosition}
use unit_management.Units.Input.{Input, Field, apply, changed, input_of, same_position}
use unit_management.Units.Broker.{updated, publish}
use unit_management.Units.Service.{
  Tables, State, by_id, patch, patch_tables, write_patch, update_unit, record_change, written,
  map_write_error,
}
use unit_management.Units.Service.Lookup.{
  KeptUnit, KeptPosition, map_write_error-eq-ok, row, read_failed, read_missing, read_found,
  get-Read,
}
use unit_management.Units.Service.Patching.{
  patch_tables-Patched, Recorded, record_position-Recorded,
}

-- The row that a patch by a user writes.
abbrev pub touched : UnitRow → User → UnitRow
touched after by = record after { updated_by_id = some by.id }

-- The history after a change of a unit: as before if the position is the same, else with the entry.
abbrev pub Kept :
    {P : Type 0} → Table P UnitPosition → P → UnitRow → UnitRow → Option User → P → Type 0
Kept positions ps before unit by ps' =
    ((same_position before unit ≡ true) × (ps' ≡ ps))
    ⊎ ((same_position before unit ≡ false) × Recorded positions ps unit by ps')

module _ {U P : Type 0} (units : Table U UnitRow) (positions : Table P UnitPosition) where
  -- The tables after the writes of a patch with changed fields.
  pub record Written (t : Tables U P) (set : UnitRow → UnitRow) (before unit : UnitRow)
      (by : Option User) (t' : Tables U P) : Type 0 where
    pub rows : units.rows t'.units ≡ map_if (by_id unit.id) set (units.rows t.units)
    pub history : Kept positions t.positions before unit by t'.positions

  -- What a Patch that succeeds has done, from the state `s` to `s'`.
  pub record PatchEffect (s : State U P) (id : Uuid) (edit : Input → Input) (by : User)
      (u : UnitRow) (fields : List Field) (s' : State U P) : Type 0 where
    pub before : UnitRow
    pub found : row units positions s.tables id ≡ some before
    pub is_local : before.sync_remote_id ≡ none
    pub after : UnitRow
    pub applied : apply before (edit (input_of before)) ≡ ok after
    pub differ : fields ≡ changed before after
    pub answered : row units positions s'.tables id ≡ some u
    pub idle : fields ≡ [] → s' ≡ s
    pub written_back :
        fields ≢ []
        → Written s.tables
            (written (touched after by))
            before
            (touched after by)
            (some by)
            s'.tables
    pub announced :
        fields ≢ []
        → s'.events ≡ publish (record { type = updated; id = id; unit = some u }) s.events

module _ {U P : Type 0} (units : Table U UnitRow) (positions : Table P UnitPosition)
    (unit_laws : IsTable KeptUnit units) (position_laws : IsTable KeptPosition positions) where
  pub update_unit-rows :
      (t : Tables U P) (set : UnitRow → UnitRow) (unit : UnitRow) (n : ℕ) {t' : Tables U P}
      → update_unit units positions t set unit ≡ ok (n, t')
      → (units.rows t'.units ≡ map_if (by_id unit.id) set (units.rows t.units))
        × (t'.positions ≡ t.positions)
  unfolding update_unit
  update_unit-rows t set unit n h =
      elim (Result-cases (map_write_error (units.update t.units (by_id unit.id) set))) [
        | inr (e, bad) ↦ absurd (ground arith)
        | inl ((us, m), good) ↦
            let (rows, _) =
              unit_laws.update-rows t.units _ set us m (map_write_error-eq-ok _ good) in
            (
              subst (λ v. units.rows v ≡ map_if (by_id unit.id) set (units.rows t.units))
                  (ground arith) rows,
              ground arith,
            )
      ]

  pub record_change-Kept :
      (t : Tables U P) (before unit : UnitRow) (by : Option User) {t' : Tables U P}
      → record_change units positions t before unit by ≡ ok t'
      → (t'.units ≡ t.units) × Kept positions t.positions before unit by t'.positions
  unfolding record_change
  record_change-Kept t before unit by h = elim (Bool-cases (same_position before unit)) [
    | inl same ↦ (ground arith, inl (same, ground arith))
    | inr moved ↦
        let (kept, entry) =
          record_position-Recorded units positions position_laws t unit by (ground arith) in
        (kept, inr (moved, entry))
  ]

  pub write_patch-Written :
      (t : Tables U P) (before after : UnitRow) (by : User) (f : Field) (fs : List Field)
      {gs : List Field} {t' : Tables U P}
      → write_patch units positions t before after by (f ∷ fs) ≡ ok (gs, t')
      → Written units positions t
          (written (touched after by))
          before
          (touched after by)
          (some by)
          t'
  unfolding write_patch
  write_patch-Written t before after by f fs h =
      elim (Result-cases
        (update_unit units positions t (written (touched after by)) (touched after by))) [
          | inr (e, bad) ↦ absurd (ground arith)
          | inl ((n, t1), stored) ↦
              let (rows, same_history) = update_unit-rows t _ _ n stored in
              elim (Bool-cases (n == 0)) [
                | inl gone ↦ absurd (ground arith)
                | inr some_row ↦
                    elim (Result-cases
                      (record_change units positions t1 before (touched after by) (some by))) [
                        | inr (e, bad) ↦ absurd (ground arith)
                        | inl (t2, changed) ↦
                            let (same_units, kept) =
                              record_change-Kept t1 before (touched after by) (some by) changed in
                            subst
                              (λ v.
                                Written units positions t (written (touched after by)) before
                                  (touched after by) (some by) v)
                              (ground arith)
                              (record {
                                rows = ap units.rows same_units ∙ rows;
                                history =
                                    subst
                                      (λ q.
                                        Kept positions q before (touched after by) (some by)
                                          t2.positions)
                                      same_history kept;
                              })
                      ]
              ]
        ]

  idle_tables_of :
      (t : Tables U P) (before after : UnitRow) (by : User) (fs gs : List Field) {t' : Tables U P}
      → write_patch units positions t before after by fs ≡ ok (gs, t')
      → gs ≡ []
      → t' ≡ t
  unfolding write_patch
  idle_tables_of t before after by [] gs h e = ground arith
  idle_tables_of t before after by (f ∷ fs) gs h e = absurd (ground arith)

  -- With no changed field nothing is written.
  pub idle_tables :
      (t : Tables U P) (before after : UnitRow) (by : User) {gs : List Field} {t' : Tables U P}
      → write_patch units positions t before after by [] ≡ ok (gs, t')
      → t ≡ t'
  unfolding write_patch
  idle_tables t before after by h = ground arith

  busy_tables :
      (t : Tables U P) (before after : UnitRow) (by : User) (fs gs : List Field) {t' : Tables U P}
      → write_patch units positions t before after by fs ≡ ok (gs, t')
      → gs ≢ []
      → Written units positions t
          (written (touched after by))
          before
          (touched after by)
          (some by)
          t'
  busy_tables t before after by [] gs h ne = absurd (ne (unfold write_patch in ground arith))
  busy_tables t before after by (f ∷ fs) gs h ne = write_patch-Written t before after by f fs h

  -- Over lawful tables, whenever Patch succeeds, the unit was there and local, the edited input
  -- applied to it, the answer is the unit's stored row with the fields that differ; with no field
  -- changed the state is as before, and otherwise the row is written back with the user as its
  -- changer, the history has an entry exactly if the position differs and there is one, and one
  -- event is published.
  pub patch-PatchEffect :
      (s : State U P) (id : Uuid) (edit : Input → Input) (by : User) {u : UnitRow}
      {fields : List Field} {s' : State U P}
      → patch units positions s id edit by ≡ (ok (u, fields), s')
      → PatchEffect units positions s id edit by u fields s'
  unfolding patch
  patch-PatchEffect s id edit by {u} {fields} {s'} h =
      elim (Result-cases (patch_tables units positions s.tables id edit by)) [
        | inr (e, bad) ↦ absurd (ground arith)
        | inl ((fs, t), good) ↦ elim (get-Read units positions unit_laws t id) [
          | read_failed e ↦ absurd (ground arith)
          | read_missing e _ ↦ absurd (ground arith)
          | read_found v e found ↦
              let p = patch_tables-Patched units positions unit_laws s.tables id edit by good in
              let same_unit : v ≡ u = ground arith in
              let same_fields : fs ≡ fields = ground arith in
              let same_tables : s'.tables ≡ t = ground arith in
              record {
                before = p.before;
                found = p.found;
                is_local = p.is_local;
                after = p.after;
                applied = p.applied;
                differ = sym same_fields ∙ p.differ;
                answered =
                    ap (λ x. row units positions x id) same_tables ∙ (found ∙ ap some same_unit);
                idle = λ none_changed.
                    let same : t ≡ s.tables =
                      idle_tables_of s.tables p.before p.after by _ fs p.writes
                        (same_fields ∙ none_changed) in
                    ground arith;
                written_back = λ ne.
                    subst
                      (λ x.
                        Written units positions s.tables (written (touched p.after by)) p.before
                          (touched p.after by) (some by) x)
                      (sym same_tables)
                      (busy_tables s.tables p.before p.after by _ fs p.writes
                        (λ x. ne (sym same_fields ∙ x)));
                announced = λ ne. ground arith;
              }
        ]
      ]
