-- ===== src/Units/Sync/Successes.antt =====
-- What a success of UpsertSynced and DeleteSynced says of the transaction.
use unit_management.Base.{◌≡◌, refl, Bool, ◌&&◌, List, [], ◌∷◌, Result, ok, err}
use unit_management.Database.{Table}
use unit_management.Models.{Uuid, UnitRow, UnitPosition}
use unit_management.Units.Input.{UnitError, Input}
use unit_management.Units.Broker.{EventType}
use unit_management.Units.Service.{Tables, State, by_id, mirrored_from, delete_units}
use unit_management.Units.Sync.{
  Outcome, unchanged, was_created, was_updated, upsert_tables, upserted_state, publish_upsert,
  upsert_synced, delete_synced, delete_synced_state,
}

module _ {U P : Type 0} (units : Table U UnitRow) (positions : Table P UnitPosition) where
  publish_upsert-tables :
      (s : State U P) (id : Uuid) (type : EventType) (t : Tables U P) (r : Result UnitError UnitRow)
      → (publish_upsert units positions s id type t r).1.tables ≡ t
  unfolding publish_upsert
  publish_upsert-tables s id type t (ok u) = refl
  publish_upsert-tables s id type t (err e) = refl

  upserted_state-ok :
      (s : State U P) (id : Uuid) (r : Result UnitError (Outcome × Tables U P)) (b : Bool)
      → (upserted_state units positions s id r).0 ≡ ok b
      → (o : Outcome) × (t : Tables U P) × (r ≡ ok (o, t))
        × ((upserted_state units positions s id r).1.tables ≡ t)
  unfolding upserted_state
  upserted_state-ok s id (err e) b h = absurd (cc)
  upserted_state-ok s id (ok (unchanged, t)) b h = (unchanged, t, refl, refl)
  upserted_state-ok s id (ok (was_created, t)) b h =
      (was_created, t, refl, publish_upsert-tables s id _ t _)
  upserted_state-ok s id (ok (was_updated, t)) b h =
      (was_updated, t, refl, publish_upsert-tables s id _ t _)

  delete_synced_state-ok :
      (s : State U P) (id : Uuid) (r : Result UnitError (List UnitRow × Tables U P)) (b : Bool)
      → (delete_synced_state units positions s id r).0 ≡ ok b
      → (gone : List UnitRow) × (t : Tables U P) × (r ≡ ok (gone, t))
        × ((delete_synced_state units positions s id r).1.tables ≡ t)
  unfolding delete_synced_state
  delete_synced_state-ok s id (err e) b h = absurd (cc)
  delete_synced_state-ok s id (ok ([], t)) b h = ([], t, refl, refl)
  delete_synced_state-ok s id (ok (u ∷ gone, t)) b h = (u ∷ gone, t, refl, refl)

  pub upsert_synced-ok :
      (s : State U P) (remote id : Uuid) (input : Input) (b : Bool)
      → (upsert_synced units positions s remote id input).0 ≡ ok b
      → (o : Outcome) × (t : Tables U P) × (upsert_tables units positions s.tables remote id input
          ≡ ok (o, t))
        × ((upsert_synced units positions s remote id input).1.tables ≡ t)
  unfolding upsert_synced
  upsert_synced-ok s remote id input b h = upserted_state-ok s id _ b h

  pub delete_synced-ok :
      (s : State U P) (remote id : Uuid) (b : Bool)
      → (delete_synced units positions s remote id).0 ≡ ok b
      → (gone : List UnitRow) × (t : Tables U P) × (delete_units units positions s.tables
            (λ u. by_id id u && mirrored_from remote u)
          ≡ ok (gone, t))
        × ((delete_synced units positions s remote id).1.tables ≡ t)
  unfolding delete_synced
  delete_synced-ok s remote id b h = delete_synced_state-ok s id _ b h
