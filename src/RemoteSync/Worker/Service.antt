-- ===== src/RemoteSync/Worker/Service.antt =====
-- The units service as a worker's store of units.
use unit_management.Base.{
  ◌≡◌, ◌≢◌, refl, sym, ap, ◌∙◌, inl, inr, Bool, true, not, ◌&&◌, Option, some, List, map, arith, ok,
  Result-cases, Bool-cases, Option-cases, find?, keep_if, any, ◌==◌, find?-keep_if_ne,
}
use unit_management.Database.{Table, IsTable}
use unit_management.Models.{Uuid, UnitRow, UnitPosition}
use unit_management.Units.Input.{Input}
use unit_management.Units.Service.{Tables, State, wrap, by_id, mirrored_from, delete_units}
use unit_management.Units.Service.Lookup.{KeptUnit, KeptPosition, wrap-eq-ok}
use unit_management.Units.Service.Transactions.{delete_units-Deleted}
use unit_management.Units.Sync.{Outcome, upsert_tables, upsert_synced, delete_synced, synced_ids}
use unit_management.Units.Sync.Frames.{upsert_synced-frame, delete_synced-frame}
use unit_management.Units.Sync.Successes.{upsert_synced-ok, delete_synced-ok}
use unit_management.Units.Sync.Effects.{
  Upserted, new_unit, same_unit, changed_unit, upsert_tables-Upserted,
}
use unit_management.Units.Sync.Owners.{
  owner_in, owner, Upserted-others, Upserted-mine, mirrored_from-eq, eq-mirrored_from,
  find?-keep_if-both, find?-keep_if-kept, any-kept,
}
use unit_management.Units.Sync.Refusals.{upsert_synced-refused}
use unit_management.RemoteSync.Worker.{UnitStore}
use unit_management.RemoteSync.Worker.Store.{Owners, IsUnitStore}

module _ {U P : Type 0} (units : Table U UnitRow) (positions : Table P UnitPosition) where
  unfoldable pub service_store : UnitStore (State U P)
  service_store = record {
    upsert = upsert_synced units positions;
    delete = delete_synced units positions;
    synced = synced_ids units positions;
  }

module _ {U P : Type 0} (units : Table U UnitRow) (positions : Table P UnitPosition)
    (unit_laws : IsTable KeptUnit units) (position_laws : IsTable KeptPosition positions) where
  abbrev pub state_owner : Owners (State U P)
  state_owner s = owner units positions unit_laws position_laws s.tables

  abbrev mine : Uuid → Uuid → UnitRow → Bool
  mine remote id u = by_id id u && mirrored_from remote u

  upserts :
      (s : State U P) (remote id : Uuid) (input : Input) (o : Outcome) (t : Tables U P)
      → upsert_tables units positions s.tables remote id input ≡ ok (o, t)
      → Upserted units positions s.tables remote id input o t
  upserts s remote id input o t h =
      upsert_tables-Upserted units positions unit_laws position_laws s.tables remote id input o t h

  Upserted-found :
      (t : Tables U P) (remote id : Uuid) (input : Input) (o : Outcome) (t' : Tables U P)
      (r : Option Uuid)
      → owner units positions unit_laws position_laws t id ≡ some r
      → r ≢ some remote
      → Upserted units positions t remote id input o t'
      → owner units positions unit_laws position_laws t' id
        ≡ owner units positions unit_laws position_laws t id
  Upserted-found t remote id input o t' r e ne (new_unit u v _ absent _ _) = absurd (ground arith)
  Upserted-found t remote id input o t' r e ne (same_unit before _ _ found ours _ _ _) =
      absurd (let m = mirrored_from-eq remote before ours in ground arith)
  Upserted-found t remote id input o t' r e ne (changed_unit before _ _ _ _ found ours _ _ _) =
      absurd (let m = mirrored_from-eq remote before ours in ground arith)

  deletes :
      (s : State U P) (remote id : Uuid) (gone : List UnitRow) (t : Tables U P)
      → delete_units units positions s.tables (mine remote id) ≡ ok (gone, t)
      → units.rows t.units ≡ keep_if (λ u. not (mine remote id u)) (units.rows s.tables.units)
  deletes s remote id gone t h =
      (delete_units-Deleted units positions unit_laws position_laws s.tables (mine remote id) gone t
        h).rows

  delete-others :
      (s : State U P) (remote id j : Uuid)
      → j ≢ id
      → state_owner (delete_synced units positions s remote id).1 j ≡ state_owner s j
  delete-others s remote id j ne =
      delete_synced-frame units positions
        (λ t. owner units positions unit_laws position_laws t j ≡ state_owner s j) s remote id refl
        λ gone t h.
          ap (λ rs. owner_in (find? (by_id j) rs)) (deletes s remote id gone t h)
          ∙ ap owner_in (
              find?-keep_if_ne (λ u. not (mine remote id u)) (by_id j) (units.rows s.tables.units)
                λ u e. ground arith)

  delete-foreign :
      (s : State U P) (remote id : Uuid)
      → state_owner s id ≢ some (some remote)
      → state_owner (delete_synced units positions s remote id).1 id ≡ state_owner s id
  delete-foreign s remote id ne =
      delete_synced-frame units positions
        (λ t. owner units positions unit_laws position_laws t id ≡ state_owner s id) s remote id
        refl
        λ gone t h.
          ap (λ rs. owner_in (find? (by_id id) rs)) (deletes s remote id gone t h)
          ∙ ap owner_in (
              find?-keep_if-kept (λ u. not (mine remote id u)) (by_id id)
                (units.rows s.tables.units)
                λ u found. elim (Bool-cases (mirrored_from remote u)) [
                  | inl ours ↦
                      absurd (ne (ap owner_in found ∙ ap some (mirrored_from-eq remote u ours)))
                  | inr foreign ↦ ground arith
                ])

  delete-ok :
      (s : State U P) (remote id : Uuid) (b : Bool)
      → (delete_synced units positions s remote id).0 ≡ ok b
      → state_owner (delete_synced units positions s remote id).1 id ≢ some (some remote)
  delete-ok s remote id b h bad =
      let (gone, t, done_so, same) = delete_synced-ok units positions s remote id b h in
      let rows = deletes s remote id gone t done_so in
      let after : owner_in
            (find? (by_id id) (keep_if (λ u. not (mine remote id u)) (units.rows s.tables.units)))
          ≡ some (some remote) =
        ap (λ rs. owner_in (find? (by_id id) rs)) (sym rows)
        ∙ (ap (λ x. owner units positions unit_laws position_laws x id) (sym same) ∙ bad) in
      elim (Option-cases
        (find? (by_id id) (keep_if (λ u. not (mine remote id u)) (units.rows s.tables.units)))) [
          | inl e ↦ absurd (ground arith)
          | inr (u, e) ↦
              let (kept, here) =
                find?-keep_if-both (λ u. not (mine remote id u)) (by_id id)
                  (units.rows s.tables.units) e in
              let m = eq-mirrored_from remote u (ground arith) in ground arith
        ]

  synced-ok :
      (s : State U P) (remote : Uuid) (ids : List Uuid)
      → synced_ids units positions s remote ≡ ok ids
      → (j : Uuid) → state_owner s j ≡ some (some remote)
      → any (λ id. id == j) ids ≡ true
  unfolding synced_ids
  synced-ok s remote ids h j own =
      elim (Option-cases (find? (by_id j) (units.rows s.tables.units))) [
        | inl e ↦ absurd (ground arith)
        | inr (u, e) ↦
            elim (Result-cases (wrap (units.select s.tables.units (mirrored_from remote)))) [
              | inr (x, bad) ↦ absurd (ground arith)
              | inl (rs, good) ↦
                  let read =
                    unit_laws.select-rows s.tables.units (mirrored_from remote) rs
                      (wrap-eq-ok _ good) in
                  let same : ids ≡ map (λ u. u.id) rs = ground arith in
                  rw (same, read)
                    (any-kept (mirrored_from remote) j (units.rows s.tables.units) e
                      (eq-mirrored_from remote u (ground arith)))
            ]
      ]

  -- The units service over lawful tables keeps all the promises that a worker relies on.
  pub service_store-IsUnitStore : IsUnitStore state_owner (service_store units positions)
  unfolding service_store
  service_store-IsUnitStore = record {
    upsert-others = λ s remote id input j ne.
        upsert_synced-frame units positions
          (λ t. owner units positions unit_laws position_laws t j ≡ state_owner s j) s remote id
          input refl
          λ o t h. ap owner_in (
            Upserted-others units positions unit_laws position_laws s.tables remote id input o t j
              ne (upserts s remote id input o t h));
    upsert-ok = λ s remote id input b h.
        let (o, t, done_so, same) = upsert_synced-ok units positions s remote id input b h in
        ap (λ x. owner units positions unit_laws position_laws x id) same
        ∙ Upserted-mine units positions unit_laws position_laws s.tables remote id input o t
            (upserts s remote id input o t done_so);
    upsert-not_mirrored = λ s remote id input h.
        let ((u, found, foreign), same) =
          upsert_synced-refused units positions unit_laws s remote id input h in
        (
          u.sync_remote_id,
          ap (λ x. state_owner x id) same ∙ ap owner_in found,
          λ ours. let m = eq-mirrored_from remote u ours in ground arith,
        );
    upsert-foreign = λ s remote id input (r, e, ne).
        upsert_synced-frame units positions
          (λ t. owner units positions unit_laws position_laws t id ≡ state_owner s id) s remote id
          input refl
          λ o t h.
            Upserted-found s.tables remote id input o t r e ne (upserts s remote id input o t h);
    delete-others = delete-others;
    delete-ok = delete-ok;
    delete-foreign = delete-foreign;
    synced-ok = synced-ok;
  }
