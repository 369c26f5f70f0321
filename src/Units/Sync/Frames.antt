-- ===== src/Units/Sync/Frames.antt =====
-- The tables after an operation of a sync remote's worker.
use unit_management.Base.{◌≡◌, refl, List, [], ◌∷◌, ◌&&◌, Result, ok, err}
use unit_management.Database.{Table}
use unit_management.Models.{Uuid, UnitRow, UnitPosition}
use unit_management.Units.Input.{UnitError, Input}
use unit_management.Units.Broker.{EventType, created, updated}
use unit_management.Units.Service.{Tables, State, by_id, mirrored_from, get, delete_units}
use unit_management.Units.Sync.{
  Outcome, unchanged, was_created, was_updated, publish_upsert, upserted_state, upsert_tables,
  upsert_synced, delete_synced_state, delete_synced,
}

module _ {U P : Type 0} (units : Table U UnitRow) (positions : Table P UnitPosition)
    (Q : Tables U P → Type 0) where
  publish_upsert-frame :
      (s : State U P) (id : Uuid) (type : EventType) (t : Tables U P) (r : Result UnitError UnitRow)
      → Q t
      → Q (publish_upsert units positions s id type t r).1.tables
  unfolding publish_upsert
  publish_upsert-frame s id type t (ok u) h = h
  publish_upsert-frame s id type t (err e) h = h

  upserted_state-frame :
      (s : State U P) (id : Uuid) (r : Result UnitError (Outcome × Tables U P))
      → Q s.tables
      → ((o : Outcome) (t : Tables U P) → r ≡ ok (o, t) → Q t)
      → Q (upserted_state units positions s id r).1.tables
  unfolding upserted_state
  upserted_state-frame s id (err e) h k = h
  upserted_state-frame s id (ok (unchanged, t)) h k = k unchanged t refl
  upserted_state-frame s id (ok (was_created, t)) h k =
      publish_upsert-frame s id created t (get units positions t id) (k was_created t refl)
  upserted_state-frame s id (ok (was_updated, t)) h k =
      publish_upsert-frame s id updated t (get units positions t id) (k was_updated t refl)

  pub upsert_synced-frame :
      (s : State U P) (remote_id id : Uuid) (input : Input)
      → Q s.tables
      → ((o : Outcome) (t : Tables U P)
          → upsert_tables units positions s.tables remote_id id input ≡ ok (o, t)
          → Q t)
      → Q (upsert_synced units positions s remote_id id input).1.tables
  unfolding upsert_synced
  upsert_synced-frame s remote_id id input = upserted_state-frame s id _

  delete_synced_state-frame :
      (s : State U P) (id : Uuid) (r : Result UnitError (List UnitRow × Tables U P))
      → Q s.tables
      → ((gone : List UnitRow) (t : Tables U P) → r ≡ ok (gone, t) → Q t)
      → Q (delete_synced_state units positions s id r).1.tables
  unfolding delete_synced_state
  delete_synced_state-frame s id (err e) h k = h
  delete_synced_state-frame s id (ok ([], t)) h k = k [] t refl
  delete_synced_state-frame s id (ok (u ∷ gone, t)) h k = k (u ∷ gone) t refl

  pub delete_synced-frame :
      (s : State U P) (remote_id id : Uuid)
      → Q s.tables
      → ((gone : List UnitRow) (t : Tables U P)
          → delete_units units positions s.tables (λ u. by_id id u && mirrored_from remote_id u)
            ≡ ok (gone, t)
          → Q t)
      → Q (delete_synced units positions s remote_id id).1.tables
  unfolding delete_synced
  delete_synced-frame s remote_id id = delete_synced_state-frame s id _
