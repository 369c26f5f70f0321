-- ===== src/RemoteSync/Worker.antt =====
-- internal/remotesync/worker.go and the units of client.go: a worker's full pass over the units that
-- the remote lists, and the events that the remote pushes. The calls of the log store are the
-- levels of the lines, in order, without their texts.
pub mod Store
pub mod Pass
pub mod Removals
pub mod Mirror
pub mod Service
use unit_management.Base.{
  ℕ, zero, suc, ◌+◌, Bool, true, false, not, ◌&&◌, ◌||◌, Option, none, some, List, [], ◌∷◌, ◌++◌,
  ◌==◌, ltb, if◌then◌else◌, any, length, Result, ok, err,
}
use unit_management.Text.{Text}
use unit_management.Float.{Float}
use unit_management.Models.{Uuid, Time, UnitSymbol, TacticalName}
use unit_management.Units.Input.{UnitError, not_mirrored, Input, Position}
use unit_management.RemoteSync.Logs.{Level, info, error}

pub record RemotePosition : Type 0 where
  pub lat : Float
  pub lon : Float
  pub height : Option Float
  pub accuracy : Option Float
  pub speed : Option Float
  pub course : Option Float
  pub timestamp : Option Time

pub record RemoteUnit : Type 0 where
  pub id : Uuid
  pub name : Text
  pub position : Option RemotePosition
  pub symbol : Option UnitSymbol
  pub tactical_name : Option TacticalName

measured : RemotePosition → Option Time → Option Position
measured p none = none
measured p (some t) = some (record {
  latitude = p.lat;
  longitude = p.lon;
  height = p.height;
  accuracy = p.accuracy;
  speed = p.speed;
  course = p.course;
  timestamp = t;
})

remote_position : Option RemotePosition → Option Position
unfolding measured
remote_position none = none
remote_position (some p) = measured p p.timestamp

-- RemoteUnit.Input
unfoldable pub input : RemoteUnit → Input
unfolding remote_position
input u = record {
  name = u.name;
  position = remote_position u.position;
  symbol = u.symbol;
  tactical_name = u.tactical_name;
}

-- unitStore
pub record UnitStore (S : Type 0) : Type 0 where
  pub upsert : S → Uuid → Uuid → Input → Result UnitError Bool × S
  pub delete : S → Uuid → Uuid → Result UnitError Bool × S
  pub synced : S → Uuid → Result UnitError (List Uuid)

-- The errors of a pass.
pub data SyncError : Type 0 where
  list_failed : SyncError
  unit_failed : Uuid → UnitError → SyncError
  synced_failed : UnitError → SyncError
  delete_failed : Uuid → UnitError → SyncError

-- A pass on its way: the store, the errors and the lines so far, and the counters.
pub record Progress (S : Type 0) : Type 0 where
  pub store : S
  pub errs : List SyncError
  pub lines : List Level
  pub changed : ℕ
  pub deleted : ℕ

abbrev pub is_not_mirrored : UnitError → Bool
is_not_mirrored not_mirrored = true
is_not_mirrored e = false

-- remoteEvent, of which another type than the three is ignored
pub data RemoteEvent : Type 0 where
  put : Option RemoteUnit → RemoteEvent
  gone : Uuid → RemoteEvent
  other : RemoteEvent

-- The map `listed`
unfoldable pub is_listed : List RemoteUnit → Uuid → Bool
is_listed list id = any (λ u. u.id == id) list

module _ {S : Type 0} (units : UnitStore S) (remote_id : Uuid) where
  upserted : Progress S → Uuid → Result UnitError Bool × S → Progress S
  upserted p id (ok true, s) = record p { store = s; changed = suc p.changed }
  upserted p id (ok false, s) = record p { store = s }
  upserted p id (err e, s) = if is_not_mirrored e then record p { store = s } else record p {
    store = s;
    errs = p.errs ++ unit_failed id e ∷ [];
    lines = p.lines ++ error ∷ [];
  }

  -- The loop over the listed units.
  unfoldable pub upsert_all : Progress S → List RemoteUnit → Progress S
  unfolding upserted
  upsert_all p [] = p
  upsert_all p (u ∷ list) =
      upsert_all (upserted p u.id (units.upsert p.store remote_id u.id (input u))) list

  removed : Progress S → Uuid → Result UnitError Bool × S → Progress S
  removed p id (ok found, s) = record p { store = s; deleted = suc p.deleted }
  removed p id (err e, s) = record p {
    store = s;
    errs = p.errs ++ delete_failed id e ∷ [];
    lines = p.lines ++ error ∷ [];
  }

  remove : Progress S → Uuid → Progress S
  unfolding removed
  remove p id = removed p id (units.delete p.store remote_id id)

  -- The loop over the mirrored units.
  unfoldable pub delete_unlisted : List RemoteUnit → Progress S → List Uuid → Progress S
  unfolding remove
  delete_unlisted list p [] = p
  delete_unlisted list p (id ∷ ids) =
      delete_unlisted list (if is_listed list id then p else remove p id) ids

  pub summed_up : Progress S → Progress S
  summed_up p =
      if ltb 0 p.changed || ltb 0 p.deleted then record p { lines = p.lines ++ info ∷ [] } else p

  after_upserts : List RemoteUnit → Progress S → Result UnitError (List Uuid) → Progress S
  unfolding summed_up
  after_upserts list p (err e) = record p { errs = p.errs ++ synced_failed e ∷ [] }
  after_upserts list p (ok mirrored) = summed_up (delete_unlisted list p mirrored)

  start : S → Progress S
  start s = record { store = s; errs = []; lines = []; changed = 0; deleted = 0 }

  -- worker.syncOnce, given what the remote's list of units is; none if it could not be read. The
  -- error is the list of errors, empty for nil.
  unfoldable pub sync_once : S → Option (List RemoteUnit) → Progress S
  unfolding after_upserts start
  sync_once s none = record (start s) { errs = list_failed ∷ [] }
  sync_once s (some list) =
      let p = upsert_all (start s) list in after_upserts list p (units.synced p.store remote_id)

  -- worker.fullSync on a context that is not canceled: the state after the pass, the lines that it
  -- logs, and the outcome for `status`.
  unfoldable pub full_sync : S → Option (List RemoteUnit) → S × List Level × List SyncError
  full_sync s list =
      let p = sync_once s list in (p.store, p.lines ++ outcome_line p.errs ∷ [], p.errs)
    where
      outcome_line : List SyncError → Level
      outcome_line [] = info
      outcome_line (e ∷ es) = error

  abbrev apply_upserted : Result UnitError Bool × S → S × List Level
  apply_upserted (ok changed, s) = (s, [])
  apply_upserted (err e, s) = if is_not_mirrored e then (s, []) else (s, error ∷ [])

  abbrev apply_deleted : Result UnitError Bool × S → S × List Level
  apply_deleted (ok found, s) = (s, [])
  apply_deleted (err e, s) = (s, error ∷ [])

  -- worker.apply on a context that is not canceled
  unfoldable pub apply_event : S → RemoteEvent → S × List Level
  apply_event s (put none) = (s, [])
  apply_event s (put (some u)) = apply_upserted (units.upsert s remote_id u.id (input u))
  apply_event s (gone id) = apply_deleted (units.delete s remote_id id)
  apply_event s other = (s, [])

-- worker.requestSync on the channel of one place: whether the request was queued, and the channel's
-- fill.
unfoldable pub request_sync : Bool → Bool × Bool
request_sync pending = (not pending, true)
