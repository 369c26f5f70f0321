-- ===== src/Units/Service/Lookup.antt =====
-- Reading a unit: what Get answers is the row of the table, or the database failed.
use unit_management.Base.{
  ◌≡◌, refl, sym, ◌⊎◌, inl, inr, Option, none, some, find?, arith, Result, ok, err,
}
use unit_management.Database.{Answer, done, duplicate, failed, Table, IsTable, first, first-rows}
use unit_management.Models.{Uuid, UnitRow, UnitPosition}
use unit_management.Units.Input.{UnitError, unit_not_found, internal}
use unit_management.Units.Service.{Tables, wrap, map_write_error, by_id, get}

-- An inserted unit keeps all its columns.
abbrev pub KeptUnit : UnitRow → UnitRow → Type 0
KeptUnit r r' = r' ≡ r

-- An inserted history entry gets its ID from the database.
abbrev pub KeptPosition : UnitPosition → UnitPosition → Type 0
KeptPosition r r' = r' ≡ record r { id = r'.id }

pub Answer-cases :
    {A : Type 0} (a : Answer A) → ((x : A) × (a ≡ done x)) ⊎ (a ≡ duplicate) ⊎ (a ≡ failed)
Answer-cases (done x) = inl (x, refl)
Answer-cases duplicate = inr (inl refl)
Answer-cases failed = inr (inr refl)

pub wrap-eq-ok : {A : Type 0} (a : Answer A) {x : A} → wrap a ≡ ok x → a ≡ done x
wrap-eq-ok (done x) h = ground arith
wrap-eq-ok duplicate h = cc
wrap-eq-ok failed h = cc

pub map_write_error-eq-ok :
    {A : Type 0} (a : Answer A) {x : A} → map_write_error a ≡ ok x → a ≡ done x
map_write_error-eq-ok (done x) h = ground arith
map_write_error-eq-ok duplicate h = cc
map_write_error-eq-ok failed h = cc

pub wrap-eq-err : {A : Type 0} (a : Answer A) {e : UnitError} → wrap a ≡ err e → e ≡ internal
wrap-eq-err (done x) h = cc
wrap-eq-err duplicate h = ground arith
wrap-eq-err failed h = ground arith

module _ {U P : Type 0} (units : Table U UnitRow) (positions : Table P UnitPosition) where
  -- The unit's row, as the table holds it.
  abbrev pub row : Tables U P → Uuid → Option UnitRow
  row t id = find? (by_id id) (units.rows t.units)

  -- The three outcomes of reading a unit.
  pub data Read (t : Tables U P) (id : Uuid) (r : Result UnitError UnitRow) : Type 0 where
    read_failed : r ≡ err internal → Read t id r
    read_missing : r ≡ err unit_not_found → row t id ≡ none → Read t id r
    read_found : (u : UnitRow) → r ≡ ok u → row t id ≡ some u → Read t id r

  module _ (laws : IsTable KeptUnit units) where
    pub get-Read : (t : Tables U P) (id : Uuid) → Read t id (get units positions t id)
    unfolding get
    get-Read t id = elim (Answer-cases (first units t.units (by_id id))) [
      | inl (none, e) ↦ read_missing (rw e) (sym (first-rows units laws t.units (by_id id) none e))
      | inl (some u, e) ↦
          read_found u (rw e) (sym (first-rows units laws t.units (by_id id) (some u) e))
      | inr (inl e) ↦ read_failed (rw e)
      | inr (inr e) ↦ read_failed (rw e)
    ]
