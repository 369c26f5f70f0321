-- ===== src/Units/History.antt =====
-- internal/units/units.go: reading the position history, and the retention that shortens it.
pub mod Order
pub mod Retention
use unit_management.Base.{
  ℕ, Bool, true, false, not, ◌&&◌, ◌||◌, List, [], ◌∷◌, ◌==◌, ltb, leb, if◌then◌else◌, length, take,
  keep_if, any, Result, ok, err, ◌>>=◌, ◌>>◌, guard,
}
use unit_management.Database.{Table}
use unit_management.Models.{Uuid, Time, zero_time, UnitRow, UnitPosition}
use unit_management.Units.Input.{UnitError, unit_not_found}
use unit_management.Units.Service.{Tables, wrap, by_id}

abbrev pub max_history_limit : ℕ
max_history_limit = 1000

-- ORDER BY timestamp DESC, id DESC
unfoldable pub newer : UnitPosition → UnitPosition → Bool
newer f e = ltb e.timestamp f.timestamp || e.timestamp == f.timestamp && ltb e.id f.id

unfoldable pub insert_sorted : UnitPosition → List UnitPosition → List UnitPosition
insert_sorted e [] = e ∷ []
insert_sorted e (f ∷ fs) =
    let rest = insert_sorted e fs in if newer f e then f ∷ rest else e ∷ f ∷ fs

unfoldable pub newest_first : List UnitPosition → List UnitPosition
newest_first [] = []
newest_first (e ∷ es) = insert_sorted e (newest_first es)

-- The WHERE clauses of History: a bound that is the zero time is left out.
unfoldable pub in_range : Uuid → Time → Time → UnitPosition → Bool
in_range id since to e =
    e.unit_id == id
    && (since == zero_time || leb since e.timestamp)
    && (to == zero_time || leb e.timestamp to)

unfoldable pub clamp_limit : ℕ → ℕ
clamp_limit limit = if limit == 0 || ltb max_history_limit limit then max_history_limit else limit

-- DISTINCT ON (unit_id) id ... ORDER BY unit_id, timestamp DESC, id DESC: whether an ID is that of the
-- newest entry of its unit.
unfoldable pub is_newest_id : List UnitPosition → ℕ → Bool
is_newest_id rows id =
    any (λ e. e.id == id && not (any (λ f. f.unit_id == e.unit_id && newer f e) rows)) rows

module _ {U P : Type 0} (units : Table U UnitRow) (positions : Table P UnitPosition) where
  -- Service.History
  unfoldable pub history :
      Tables U P → Uuid → ℕ → Time → Time → Result UnitError (List UnitPosition)
  history t id limit since to = do
    found ← wrap (units.select t.units (by_id id))
    guard (not (length found == 0)) unit_not_found
    entries ← wrap (positions.select t.positions (in_range id since to))
    ok (take (clamp_limit limit) (newest_first entries))

  -- Service.deleteHistoryBefore, whose one statement reads the newest entries from the rows that it
  -- deletes from.
  unfoldable pub delete_history_before : Tables U P → Time → Result UnitError (ℕ × Tables U P)
  delete_history_before t cutoff = do
    rows ← wrap (positions.select t.positions (λ _. true))
    deletion ←
        wrap (
          positions.delete t.positions
            (λ e. ltb e.timestamp cutoff && not (is_newest_id rows e.id)))
    ok (length deletion.1, record t { positions = deletion.0 })
