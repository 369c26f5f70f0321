-- ===== src/Units/Service/Transactions.antt =====
-- What the transactions other than Patch's have done when they succeed.
use mathlib.Core.Path.{subst}
use unit_management.Base.{
  ◌≡◌, sym, ap, ◌∙◌, Bool, not, Option, inl, inr, List, [], ◌∷◌, ◌++◌, arith, ok, Result-cases,
  keep_if, any,
}
use unit_management.Database.{Table, IsTable}
use unit_management.Models.{User, UnitRow, UnitPosition}
use unit_management.Units.Service.{
  Tables, wrap, map_write_error, by_id, insert_unit, record_position, delete_units,
}
use unit_management.Units.Service.Lookup.{KeptUnit, KeptPosition, wrap-eq-ok, map_write_error-eq-ok}
use unit_management.Units.Service.Patching.{Recorded, record_position-Recorded}

module _ {U P : Type 0} (units : Table U UnitRow) (positions : Table P UnitPosition) where
  pub record Inserted (t : Tables U P) (u : UnitRow) (by : Option User) (v : UnitRow)
      (t' : Tables U P) : Type 0 where
    pub same : v ≡ u
    pub rows : units.rows t'.units ≡ units.rows t.units ++ u ∷ []
    pub history : Recorded positions t.positions u by t'.positions

  pub record Deleted (t : Tables U P) (which : UnitRow → Bool) (gone : List UnitRow)
      (t' : Tables U P) : Type 0 where
    pub removed : gone ≡ keep_if which (units.rows t.units)
    pub rows : units.rows t'.units ≡ keep_if (λ u. not (which u)) (units.rows t.units)
    pub history :
        positions.rows t'.positions
        ≡ keep_if (λ e. not (any (by_id e.unit_id) gone)) (positions.rows t.positions)

module _ {U P : Type 0} (units : Table U UnitRow) (positions : Table P UnitPosition)
    (unit_laws : IsTable KeptUnit units) (position_laws : IsTable KeptPosition positions) where
  pub insert_unit-Inserted :
      (t : Tables U P) (u : UnitRow) (by : Option User) (v : UnitRow) (t' : Tables U P)
      → insert_unit units positions t u by ≡ ok (v, t')
      → Inserted units positions t u by v t'
  unfolding insert_unit
  insert_unit-Inserted t u by v t' h =
      elim (Result-cases (map_write_error (units.insert t.units u))) [
        | inr (e, bad) ↦ absurd (ground arith)
        | inl ((us, w), good) ↦
            let (rows, kept) =
              unit_laws.insert-rows t.units u us w (map_write_error-eq-ok _ good) in
            elim (Result-cases (record_position units positions (record t { units = us }) u by)) [
              | inr (e, bad) ↦ absurd (ground arith)
              | inl (t2, recorded_ok) ↦
                  let (same_units, history) =
                    record_position-Recorded units positions position_laws _ u by recorded_ok in
                  let same : t2 ≡ t' = ground arith in
                  record {
                    same = ground arith;
                    rows =
                        ap (λ x. units.rows x.units) (sym same)
                        ∙ (ap units.rows same_units
                            ∙ (rows ∙ ap (λ x. units.rows t.units ++ x ∷ []) kept));
                    history =
                        subst (λ x. Recorded positions t.positions u by x.positions) same history;
                  }
            ]
      ]

  pub delete_units-Deleted :
      (t : Tables U P) (which : UnitRow → Bool) (gone : List UnitRow) (t' : Tables U P)
      → delete_units units positions t which ≡ ok (gone, t')
      → Deleted units positions t which gone t'
  unfolding delete_units
  delete_units-Deleted t which gone t' h = elim (Result-cases (wrap (units.delete t.units which))) [
    | inr (e, bad) ↦ absurd (ground arith)
    | inl ((us, lost), good) ↦
        let (rows, removed) = unit_laws.delete-rows t.units which us lost (wrap-eq-ok _ good) in
        elim (Result-cases
          (wrap (positions.delete t.positions (λ e. any (by_id e.unit_id) lost)))) [
            | inr (e, bad) ↦ absurd (ground arith)
            | inl ((ps, cascaded), good') ↦
                let (history, _) =
                  position_laws.delete-rows t.positions _ ps cascaded (wrap-eq-ok _ good') in
                let same_gone : lost ≡ gone = ground arith in
                let same : (record { units = us; positions = ps }) ≡ t' = ground arith in
                record {
                  removed = sym same_gone ∙ removed;
                  rows = ap (λ (x : Tables U P). units.rows x.units) (sym same) ∙ rows;
                  history =
                      ap (λ (x : Tables U P). positions.rows x.positions) (sym same)
                      ∙ (history
                          ∙ ap
                              (λ (g : List UnitRow).
                                keep_if (λ e. not (any (by_id e.unit_id) g))
                                  (positions.rows t.positions))
                              same_gone);
                }
          ]
  ]
