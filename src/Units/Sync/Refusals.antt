-- ===== src/Units/Sync/Refusals.antt =====
-- When UpsertSynced answers ErrNotMirrored.
use unit_management.Base.{
  ◌≡◌, ◌≢◌, refl, sym, ◌∙◌, inl, inr, true, false, Option, none, some, List, [], ◌∷◌, arith, Result,
  ok, err, Result-cases, Bool-cases, Option-cases, Errs, >>=-Errs, Errs-eq,
}
use unit_management.Database.{Answer, done, duplicate, failed, Table, IsTable, first, first-rows}
use unit_management.Models.{Uuid, User, UnitRow, UnitPosition}
use unit_management.Units.Input.{
  UnitError, not_mirrored, Input, Field, changed, position_of, same_position,
}
use unit_management.Units.Input.Refusals.{IsRefusal, apply-Errs}
use unit_management.Units.Broker.{EventType}
use unit_management.Units.Service.{
  Tables, State, wrap, map_write_error, by_id, mirrored_from, get, blank, written_synced,
  insert_unit, update_unit, record_change, record_position, entry_of,
}
use unit_management.Units.Service.Lookup.{
  KeptUnit, row, read_failed, read_missing, read_found, get-Read, wrap-eq-ok,
}
use unit_management.Units.Sync.{
  Outcome, unchanged, was_created, was_updated, upsert_tables, upsert_found, upserted_state,
  publish_upsert, upsert_synced, write_synced,
}

wrap-Errs : {A : Type 0} (a : Answer A) → Errs IsRefusal (wrap a)
wrap-Errs (done x) = tt
wrap-Errs duplicate = λ h. absurd (cc)
wrap-Errs failed = λ h. absurd (cc)

map_write_error-Errs : {A : Type 0} (a : Answer A) → Errs IsRefusal (map_write_error a)
map_write_error-Errs (done x) = tt
map_write_error-Errs duplicate = λ h. absurd (cc)
map_write_error-Errs failed = λ h. absurd (cc)

module _ {U P : Type 0} (units : Table U UnitRow) (positions : Table P UnitPosition) where
  record_position-Errs :
      (t : Tables U P) (u : UnitRow) (by : Option User)
      → Errs IsRefusal (record_position units positions t u by)
  unfolding record_position
  record_position-Errs t u by = elim (Option-cases (position_of u)) [
    | inl unknown ↦ rw (unknown, record_position) tt
    | inr (p, known) ↦
        rw (known, record_position)
          (>>=-Errs IsRefusal _ _ (wrap-Errs (positions.insert t.positions (entry_of u.id p by)))
            λ _. tt)
  ]

  insert_unit-Errs :
      (t : Tables U P) (u : UnitRow) (by : Option User)
      → Errs IsRefusal (insert_unit units positions t u by)
  unfolding insert_unit
  insert_unit-Errs t u by =
      >>=-Errs IsRefusal _ _ (map_write_error-Errs (units.insert t.units u)) λ stored.
        >>=-Errs IsRefusal _ _ (record_position-Errs (record t { units = stored.0 }) u by) λ _. tt

  record_change-Errs :
      (t : Tables U P) (before u : UnitRow) (by : Option User)
      → Errs IsRefusal (record_change units positions t before u by)
  unfolding record_change
  record_change-Errs t before u by = elim (Bool-cases (same_position before u)) [
    | inl same ↦ rw same tt
    | inr moved ↦ rw moved (record_position-Errs t u by)
  ]

  write_synced-Errs :
      (t : Tables U P) (before after : UnitRow) (fs : List Field)
      → Errs IsRefusal (write_synced units positions t before after fs)
  unfolding write_synced update_unit
  write_synced-Errs t before after [] = tt
  write_synced-Errs t before after (f ∷ fs) =
      >>=-Errs IsRefusal _ _
        (>>=-Errs IsRefusal _ _
          (map_write_error-Errs (units.update t.units (by_id after.id) (written_synced after)))
          λ _. tt)
        λ stored. >>=-Errs IsRefusal _ _ (record_change-Errs stored.1 before after none) λ _. tt

  -- Among the errors of the transaction, ErrNotMirrored means a unit of another owner.
  upsert_found-refused :
      (t : Tables U P) (remote id : Uuid) (input : Input) (found : Option UnitRow)
      → upsert_found units positions t remote id input found ≡ err not_mirrored
      → (u : UnitRow) × (found ≡ some u) × (mirrored_from remote u ≡ false)
  unfolding upsert_found
  upsert_found-refused t remote id input none h = absurd (
      Errs-eq IsRefusal _
        (>>=-Errs IsRefusal _ _ (apply-Errs (blank id none (some remote)) input)
          λ u. >>=-Errs IsRefusal _ _ (insert_unit-Errs t u none) λ _. tt)
        h refl)
  upsert_found-refused t remote id input (some u) h = elim (Bool-cases (mirrored_from remote u)) [
    | inr foreign ↦ (u, refl, foreign)
    | inl ours ↦ absurd (Errs-eq IsRefusal _ (go ours) h refl)
  ]
    where
      go :
          mirrored_from remote u ≡ true
          → Errs IsRefusal (upsert_found units positions t remote id input (some u))
      go ours = rw ours (
          >>=-Errs IsRefusal _ _ (apply-Errs u input)
            λ after. write_synced-Errs t u after (changed u after))

  module _ (unit_laws : IsTable KeptUnit units) where
    upsert_tables-refused :
        (t : Tables U P) (remote id : Uuid) (input : Input)
        → upsert_tables units positions t remote id input ≡ err not_mirrored
        → (u : UnitRow) × (row units positions t id ≡ some u) × (mirrored_from remote u ≡ false)
    unfolding upsert_tables
    upsert_tables-refused t remote id input h =
        elim (Result-cases (wrap (first units t.units (by_id id)))) [
          | inr (e, bad) ↦
              absurd (
                Errs-eq IsRefusal _ (wrap-Errs (first units t.units (by_id id))) (ground arith)
                  refl)
          | inl (found, good) ↦
              let (u, is_u, foreign) =
                upsert_found-refused t remote id input found (ground arith) in
              (
                u,
                sym (first-rows units unit_laws t.units (by_id id) found (wrap-eq-ok _ good))
                    ∙ is_u,
                foreign,
              )
        ]

    get-Errs : (t : Tables U P) (id : Uuid) → get units positions t id ≢ err not_mirrored
    get-Errs t id h = elim (get-Read units positions unit_laws t id) [
      | read_failed e ↦ absurd (ground arith)
      | read_missing e _ ↦ absurd (ground arith)
      | read_found u e _ ↦ absurd (ground arith)
    ]

    publish_upsert-refused :
        (s : State U P) (id : Uuid) (type : EventType) (t : Tables U P)
        (r : Result UnitError UnitRow)
        → r ≢ err not_mirrored
        → (publish_upsert units positions s id type t r).0 ≢ err not_mirrored
    unfolding publish_upsert
    publish_upsert-refused s id type t (ok u) ne h = cc
    publish_upsert-refused s id type t (err e) ne h = ground arith

    upserted_state-refused :
        (s : State U P) (id : Uuid) (r : Result UnitError (Outcome × Tables U P))
        → (upserted_state units positions s id r).0 ≡ err not_mirrored
        → (r ≡ err not_mirrored) × ((upserted_state units positions s id r).1 ≡ s)
    unfolding upserted_state
    upserted_state-refused s id (err e) h = (ground arith, refl)
    upserted_state-refused s id (ok (unchanged, t)) h = absurd (cc)
    upserted_state-refused s id (ok (was_created, t)) h =
        absurd (publish_upsert-refused s id _ t _ (get-Errs t id) h)
    upserted_state-refused s id (ok (was_updated, t)) h =
        absurd (publish_upsert-refused s id _ t _ (get-Errs t id) h)

    -- Over lawful tables, UpsertSynced answers ErrNotMirrored only for a unit that exists and is
    -- not mirrored from the remote, and then nothing has changed.
    pub upsert_synced-refused :
        (s : State U P) (remote id : Uuid) (input : Input)
        → (upsert_synced units positions s remote id input).0 ≡ err not_mirrored
        → ((u : UnitRow) × (row units positions s.tables id ≡ some u)
            × (mirrored_from remote u ≡ false))
          × ((upsert_synced units positions s remote id input).1 ≡ s)
    unfolding upsert_synced
    upsert_synced-refused s remote id input h =
        let (refused, same) = upserted_state-refused s id _ h in
        (upsert_tables-refused s.tables remote id input refused, same)
