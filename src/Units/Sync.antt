-- ===== src/Units/Sync.antt =====
-- internal/units/sync.go: the operations by which a sync remote's worker mirrors units.
pub mod Frames
pub mod Effects
pub mod Owners
pub mod Successes
pub mod Refusals
use unit_management.Base.{
  ℕ, Bool, true, false, not, ◌&&◌, Option, none, some, List, [], ◌∷◌, ◌==◌, is_some, map, Result,
  ok, err, ◌>>=◌, ◌>>◌, guard,
}
use unit_management.Database.{Table, first}
use unit_management.Models.{Uuid, User, UnitRow, UnitPosition}
use unit_management.Units.Input.{UnitError, not_mirrored, Input, Field, apply, changed}
use unit_management.Units.Broker.{EventType, created, updated, deleted, publish}
use unit_management.Units.Service.{
  Tables, State, wrap, by_id, mirrored_from, written_synced, blank, get, insert_unit, update_unit,
  record_change, delete_units,
}

-- What the transaction of UpsertSynced found out: the flags `created` and `changed`.
pub data Outcome : Type 0 where
  unchanged was_created was_updated : Outcome

module _ {U P : Type 0} (units : Table U UnitRow) (positions : Table P UnitPosition) where
  -- The writes to a mirrored unit.
  unfoldable pub write_synced :
      Tables U P → UnitRow → UnitRow → List Field → Result UnitError (Outcome × Tables U P)
  write_synced t before after [] = ok (unchanged, t)
  write_synced t before after (f ∷ fs) = do
    stored ← update_unit units positions t (written_synced after) after
    t' ← record_change units positions stored.1 before after none
    ok (was_updated, t')

  upsert_found :
      Tables U P → Uuid → Uuid → Input → Option UnitRow → Result UnitError (Outcome × Tables U P)
  upsert_found t remote_id id input none = do
    unit ← apply (blank id none (some remote_id)) input
    stored ← insert_unit units positions t unit none
    ok (was_created, stored.1)
  upsert_found t remote_id id input (some unit) = do
    guard (mirrored_from remote_id unit) not_mirrored
    after ← apply unit input
    write_synced t unit after (changed unit after)

  -- The transaction of UpsertSynced.
  unfoldable pub upsert_tables :
      Tables U P → Uuid → Uuid → Input → Result UnitError (Outcome × Tables U P)
  unfolding upsert_found
  upsert_tables t remote_id id input = do
    found ← wrap (first units t.units (by_id id))
    upsert_found t remote_id id input found

  publish_upsert :
      State U P
      → Uuid
      → EventType
      → Tables U P
      → Result UnitError UnitRow
      → Result UnitError Bool × State U P
  publish_upsert s id type t (err e) = (err e, record s { tables = t })
  publish_upsert s id type t (ok unit) = (
    ok true,
    record {
      tables = t;
      events = publish (record { type = type; id = id; unit = some unit }) s.events;
    },
  )

  upserted_state :
      State U P → Uuid → Result UnitError (Outcome × Tables U P) → Result UnitError Bool × State U P
  unfolding publish_upsert
  upserted_state s id (err e) = (err e, s)
  upserted_state s id (ok (unchanged, t)) = (ok false, record s { tables = t })
  upserted_state s id (ok (was_created, t)) =
      publish_upsert s id created t (get units positions t id)
  upserted_state s id (ok (was_updated, t)) =
      publish_upsert s id updated t (get units positions t id)

  -- Service.UpsertSynced. Beside an error the source also answers whether something changed, which
  -- its caller does not read.
  unfoldable pub upsert_synced : State U P → Uuid → Uuid → Input → Result UnitError Bool × State U P
  unfolding upserted_state
  upsert_synced s remote_id id input =
      upserted_state s id (upsert_tables s.tables remote_id id input)

  delete_synced_state :
      State U P
      → Uuid
      → Result UnitError (List UnitRow × Tables U P)
      → Result UnitError Bool × State U P
  delete_synced_state s id (err e) = (err e, s)
  delete_synced_state s id (ok ([], t)) = (ok false, record s { tables = t })
  delete_synced_state s id (ok (unit ∷ gone, t)) = (
    ok true,
    record {
      tables = t;
      events = publish (record { type = deleted; id = id; unit = none }) s.events;
    },
  )

  -- Service.DeleteSynced
  unfoldable pub delete_synced : State U P → Uuid → Uuid → Result UnitError Bool × State U P
  unfolding delete_synced_state
  delete_synced s remote_id id =
      delete_synced_state s id
        (delete_units units positions s.tables (λ u. by_id id u && mirrored_from remote_id u))

  -- Service.SyncedIDs
  unfoldable pub synced_ids : State U P → Uuid → Result UnitError (List Uuid)
  synced_ids s remote_id = do
    mirrored ← wrap (units.select s.tables.units (mirrored_from remote_id))
    ok (map (λ u. u.id) mirrored)
