-- ===== src/Units/Service.antt =====
-- internal/units/units.go and sync.go: the operations of the units service, over the tables of units
-- and of position history. A transaction works on the tables alone and gives new ones only if it
-- succeeds; statements outside a transaction keep what was written before a later one fails.
pub mod Lookup
pub mod Patching
pub mod Effects
pub mod Outcomes
pub mod Transactions
pub mod Frames
use unit_management.Base.{
  ℕ, Bool, true, false, not, ◌&&◌, Option, none, some, List, [], ◌∷◌, ◌==◌, if◌then◌else◌, is_some,
  any, map, Result, ok, err, ◌>>=◌, ◌>>◌, guard, or_err,
}
use unit_management.Database.{Answer, done, duplicate, failed, Table, first}
use unit_management.Models.{Uuid, User, UnitRow, UnitPosition}
use unit_management.Units.Input.{
  UnitError, unit_not_found, name_taken, unit_synced, not_mirrored, internal, Position, Input,
  Field, apply, input_of, position_of, changed, same_position,
}
use unit_management.Units.Broker.{Event, EventType, created, updated, deleted, Broker, publish}

pub record Tables (U P : Type 0) : Type 0 where
  pub units : U
  pub positions : P

pub record State (U P : Type 0) : Type 0 where
  pub tables : Tables U P
  pub events : Broker

-- A query's failure is wrapped.
abbrev pub wrap : {A : Type 0} → Answer A → Result UnitError A
wrap (done a) = ok a
wrap duplicate = err internal
wrap failed = err internal

-- mapWriteError
abbrev pub map_write_error : {A : Type 0} → Answer A → Result UnitError A
map_write_error (done a) = ok a
map_write_error duplicate = err name_taken
map_write_error failed = err internal

abbrev pub by_id : Uuid → UnitRow → Bool
by_id id u = u.id == id

abbrev pub mirrored_from : Uuid → UnitRow → Bool
mirrored_from remote_id u = elim u.sync_remote_id [ none ↦ false | some r ↦ r == remote_id ]

-- A history entry of a unit's position.
unfoldable pub entry_of : Uuid → Position → Option User → UnitPosition
entry_of id p by = record {
  id = 0;
  unit_id = id;
  latitude = p.latitude;
  longitude = p.longitude;
  height = p.height;
  accuracy = p.accuracy;
  speed = p.speed;
  course = p.course;
  timestamp = p.timestamp;
  recorded_by_id = recorded by;
}
  where
    recorded : Option User → Option ℕ
    recorded none = none
    recorded (some u) = some u.id

-- The columns that an update writes: all but the ID and the creator.
unfoldable pub written : UnitRow → UnitRow → UnitRow
written new old = record new { id = old.id; created_by_id = old.created_by_id }

-- The columns that an update of a mirrored unit writes: not its remote either.
unfoldable pub written_synced : UnitRow → UnitRow → UnitRow
written_synced new old = record new {
  id = old.id;
  created_by_id = old.created_by_id;
  sync_remote_id = old.sync_remote_id;
}

-- A new unit before `apply` fills it.
unfoldable pub blank : Uuid → Option ℕ → Option Uuid → UnitRow
blank id by remote = record {
  id = id;
  name = [];
  latitude = none;
  longitude = none;
  height = none;
  accuracy = none;
  speed = none;
  course = none;
  position_timestamp = none;
  symbol = none;
  tactical_name = none;
  created_by_id = by;
  updated_by_id = by;
  sync_remote_id = remote;
}

module _ {U P : Type 0} (units : Table U UnitRow) (positions : Table P UnitPosition) where
  -- Service.Get
  unfoldable pub get : Tables U P → Uuid → Result UnitError UnitRow
  get t id = do unit ← wrap (first units t.units (by_id id)); or_err unit unit_not_found

  unfoldable pub record_position :
      Tables U P → UnitRow → Option User → Result UnitError (Tables U P)
  record_position t unit by = elim (position_of unit) [
    | none ↦ ok t
    | some p ↦ do
      stored ← wrap (positions.insert t.positions (entry_of unit.id p by))
      ok (record t { positions = stored.0 })
  ]

  -- The transaction of Create, and the new rows of UpsertSynced.
  unfoldable pub insert_unit :
      Tables U P → UnitRow → Option User → Result UnitError (UnitRow × Tables U P)
  insert_unit t unit by = do
    stored ← map_write_error (units.insert t.units unit)
    t' ← record_position (record t { units = stored.0 }) unit by
    ok (stored.1, t')

  created_state :
      State U P → Result UnitError (UnitRow × Tables U P) → Result UnitError UnitRow × State U P
  created_state s (ok (unit, t)) = (
    ok unit,
    record {
      tables = t;
      events = publish (record { type = created; id = unit.id; unit = some unit }) s.events;
    },
  )
  created_state s (err e) = (err e, s)

  -- Service.Create; `new_id` is what uuid.NewV7 returns.
  unfoldable pub create :
      State U P → Option Uuid → Input → User → Result UnitError UnitRow × State U P
  unfolding created_state
  create s new_id input by = created_state s do
    id ← or_err new_id internal
    unit ← apply (blank id (some by.id) none) input
    insert_unit s.tables unit (some by)

  -- The UPDATE of a unit's row, found by the primary key; it answers the rows affected.
  unfoldable pub update_unit :
      Tables U P → (UnitRow → UnitRow) → UnitRow → Result UnitError (ℕ × Tables U P)
  update_unit t set unit = do
    stored ← map_write_error (units.update t.units (by_id unit.id) set)
    ok (stored.1, record t { units = stored.0 })

  unfoldable pub record_change :
      Tables U P → UnitRow → UnitRow → Option User → Result UnitError (Tables U P)
  record_change t before unit by =
      if same_position before unit then ok t else record_position t unit by

  -- The writes of a patch that changed the given fields.
  unfoldable pub write_patch :
      Tables U P
      → UnitRow
      → UnitRow
      → User
      → List Field
      → Result UnitError (List Field × Tables U P)
  write_patch t before after by [] = ok ([], t)
  write_patch t before after by (f ∷ fs) = do
    let unit : UnitRow = record after { updated_by_id = some by.id }
    stored ← update_unit t (written unit) unit
    guard (not (stored.0 == 0)) unit_not_found
    t' ← record_change stored.1 before unit (some by)
    ok (f ∷ fs, t')

  -- The transaction of Patch.
  unfoldable pub patch_tables :
      Tables U P → Uuid → (Input → Input) → User → Result UnitError (List Field × Tables U P)
  patch_tables t id edit by = do
    unit ← get t id
    guard (not (is_some unit.sync_remote_id)) unit_synced
    after ← apply unit (edit (input_of unit))
    write_patch t unit after by (changed unit after)

  abbrev publish_update : Uuid → UnitRow → List Field → Broker → Broker
  publish_update id unit [] b = b
  publish_update id unit (f ∷ fs) b =
      publish (record { type = updated; id = id; unit = some unit }) b

  patched_state :
      State U P
      → Uuid
      → List Field
      → Tables U P
      → Result UnitError UnitRow
      → Result UnitError (UnitRow × List Field) × State U P
  patched_state s id fields t (err e) = (err e, record s { tables = t })
  patched_state s id fields t (ok unit) =
      (ok (unit, fields), record { tables = t; events = publish_update id unit fields s.events })

  after_patch :
      State U P
      → Uuid
      → Result UnitError (List Field × Tables U P)
      → Result UnitError (UnitRow × List Field) × State U P
  unfolding patched_state
  after_patch s id (err e) = (err e, s)
  after_patch s id (ok (fields, t)) = patched_state s id fields t (get t id)

  -- Service.Patch. The unit is read again once the transaction is committed.
  unfoldable pub patch :
      State U P
      → Uuid
      → (Input → Input)
      → User
      → Result UnitError (UnitRow × List Field) × State U P
  unfolding after_patch
  patch s id edit by = after_patch s id (patch_tables s.tables id edit by)

  -- Service.Update
  unfoldable pub update :
      State U P → Uuid → Input → User → Result UnitError (UnitRow × List Field) × State U P
  update s id input by = patch s id (λ current. record input { position = current.position }) by

  abbrev unit_only :
      Result UnitError (UnitRow × List Field) × State U P → Result UnitError UnitRow × State U P
  unit_only (ok (unit, fields), s) = (ok unit, s)
  unit_only (err e, s) = (err e, s)

  -- Service.SetPosition
  unfoldable pub set_position :
      State U P → Uuid → Option Position → User → Result UnitError UnitRow × State U P
  set_position s id p by = unit_only (patch s id (λ current. record current { position = p }) by)

  -- A DELETE of units, with the history that goes with them (ON DELETE CASCADE); it answers the
  -- deleted rows.
  unfoldable pub delete_units :
      Tables U P → (UnitRow → Bool) → Result UnitError (List UnitRow × Tables U P)
  delete_units t which = do
    deletion ← wrap (units.delete t.units which)
    cascade ← wrap (positions.delete t.positions (λ e. any (by_id e.unit_id) deletion.1))
    ok (deletion.1, record { units = deletion.0; positions = cascade.0 })

  publish_deletion : State U P → Uuid → Tables U P → State U P
  publish_deletion s id t = record {
    tables = t;
    events = publish (record { type = deleted; id = id; unit = none }) s.events;
  }

  not_deleted : Result UnitError UnitRow → Result UnitError UnitRow
  not_deleted (ok unit) = err unit_synced
  not_deleted (err e) = err e

  deleted_state :
      State U P
      → Uuid
      → Result UnitError (List UnitRow × Tables U P)
      → Result UnitError UnitRow × State U P
  unfolding publish_deletion not_deleted
  deleted_state s id (err e) = (err e, s)
  deleted_state s id (ok ([], t)) = (not_deleted (get t id), record s { tables = t })
  deleted_state s id (ok (unit ∷ gone, t)) = (ok unit, publish_deletion s id t)

  -- Service.Delete
  unfoldable pub delete : State U P → Uuid → Result UnitError UnitRow × State U P
  unfolding deleted_state
  delete s id =
      deleted_state s id (delete_units s.tables (λ u. by_id id u && not (is_some u.sync_remote_id)))
