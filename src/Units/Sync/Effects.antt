-- ===== src/Units/Sync/Effects.antt =====
-- What the transaction of UpsertSynced has done when it succeeds.
use mathlib.Core.Path.{subst}
use unit_management.Base.{
  ◌≡◌, refl, sym, ap, ◌∙◌, inl, inr, true, Option, none, some, List, [], ◌∷◌, arith, ok,
  Result-cases, Bool-cases,
}
use unit_management.Database.{Table, IsTable, first, first-rows}
use unit_management.Models.{Uuid, UnitRow, UnitPosition}
use unit_management.Units.Input.{Input, Field, apply, changed}
use unit_management.Units.Service.{
  Tables, wrap, by_id, mirrored_from, written_synced, blank, insert_unit, update_unit,
  record_change,
}
use unit_management.Units.Service.Lookup.{KeptUnit, KeptPosition, wrap-eq-ok, row}
use unit_management.Units.Service.Effects.{Kept, Written, update_unit-rows, record_change-Kept}
use unit_management.Units.Service.Transactions.{Inserted, insert_unit-Inserted}
use unit_management.Units.Sync.{
  Outcome, unchanged, was_created, was_updated, write_synced, upsert_found, upsert_tables,
}

module _ {U P : Type 0} (units : Table U UnitRow) (positions : Table P UnitPosition) where
  -- The three ways in which a transaction of UpsertSynced succeeds.
  pub data Upserted (t : Tables U P) (remote_id id : Uuid) (input : Input) (o : Outcome)
      (t' : Tables U P) : Type 0 where
    new_unit :
        (u v : UnitRow)
        → o ≡ was_created
        → row units positions t id ≡ none
        → apply (blank id none (some remote_id)) input ≡ ok u
        → Inserted units positions t u none v t'
        → Upserted t remote_id id input o t'
    same_unit :
        (before after : UnitRow)
        → o ≡ unchanged
        → row units positions t id ≡ some before
        → mirrored_from remote_id before ≡ true
        → apply before input ≡ ok after
        → changed before after ≡ []
        → t' ≡ t
        → Upserted t remote_id id input o t'
    changed_unit :
        (before after : UnitRow) (f : Field) (fs : List Field)
        → o ≡ was_updated
        → row units positions t id ≡ some before
        → mirrored_from remote_id before ≡ true
        → apply before input ≡ ok after
        → changed before after ≡ f ∷ fs
        → Written units positions t (written_synced after) before after none t'
        → Upserted t remote_id id input o t'

module _ {U P : Type 0} (units : Table U UnitRow) (positions : Table P UnitPosition)
    (unit_laws : IsTable KeptUnit units) (position_laws : IsTable KeptPosition positions) where
  write_synced-Written :
      (t : Tables U P) (before after : UnitRow) (f : Field) (fs : List Field) (o : Outcome)
      (t' : Tables U P)
      → write_synced units positions t before after (f ∷ fs) ≡ ok (o, t')
      → (o ≡ was_updated) × Written units positions t (written_synced after) before after none t'
  unfolding write_synced
  write_synced-Written t before after f fs o t' h =
      elim (Result-cases (update_unit units positions t (written_synced after) after)) [
        | inr (e, bad) ↦ absurd (ground arith)
        | inl ((n, t1), stored) ↦
            let (rows, same_history) =
              update_unit-rows units positions unit_laws position_laws t _ _ n stored in
            elim (Result-cases (record_change units positions t1 before after none)) [
              | inr (e, bad) ↦ absurd (ground arith)
              | inl (t2, changed_ok) ↦
                  let (same_units, kept) =
                    record_change-Kept units positions unit_laws position_laws t1 before after none
                      changed_ok in
                  (
                    ground arith,
                    subst
                        (λ v. Written units positions t (written_synced after) before after none v)
                        (ground arith)
                        (record {
                          rows = ap units.rows same_units ∙ rows;
                          history =
                              subst (λ q. Kept positions q before after none t2.positions)
                                same_history kept;
                        }),
                  )
            ]
      ]

  write_synced-Upserted :
      (t : Tables U P) (remote_id id : Uuid) (input : Input) (before after : UnitRow)
      (fs : List Field) (o : Outcome) (t' : Tables U P)
      → row units positions t id ≡ some before
      → mirrored_from remote_id before ≡ true
      → apply before input ≡ ok after
      → changed before after ≡ fs
      → write_synced units positions t before after fs ≡ ok (o, t')
      → Upserted units positions t remote_id id input o t'
  write_synced-Upserted t remote_id id input before after [] o t' found ours applied differ h =
      let (same_o, same_t) = idle h in
      same_unit before after same_o found ours applied differ same_t
    where
      idle :
          write_synced units positions t before after [] ≡ ok (o, t') → (o ≡ unchanged) × (t' ≡ t)
      idle h = unfold write_synced in ground arith
  write_synced-Upserted t remote_id id input before after (f ∷ fs) o t' found ours applied differ
        h =
      let (is_update, w) = write_synced-Written t before after f fs o t' h in
      changed_unit before after f fs is_update found ours applied differ w

  upsert_found-Upserted :
      (t : Tables U P) (remote_id id : Uuid) (input : Input) (found : Option UnitRow) (o : Outcome)
      (t' : Tables U P)
      → row units positions t id ≡ found
      → upsert_found units positions t remote_id id input found ≡ ok (o, t')
      → Upserted units positions t remote_id id input o t'
  unfolding upsert_found
  upsert_found-Upserted t remote_id id input none o t' e h =
      elim (Result-cases (apply (blank id none (some remote_id)) input)) [
        | inr (x, bad) ↦ absurd (ground arith)
        | inl (u, applied) ↦ elim (Result-cases (insert_unit units positions t u none)) [
          | inr (x, bad) ↦ absurd (ground arith)
          | inl ((v, t2), inserted) ↦
              let same : t2 ≡ t' = ground arith in
              new_unit u v (ground arith) e applied (
                subst (λ x. Inserted units positions t u none v x) same
                  (insert_unit-Inserted units positions unit_laws position_laws t u none v t2
                    inserted))
        ]
      ]
  upsert_found-Upserted t remote_id id input (some before) o t' e h =
      elim (Bool-cases (mirrored_from remote_id before)) [
        | inr foreign ↦ absurd (ground arith)
        | inl ours ↦ elim (Result-cases (apply before input)) [
          | inr (x, bad) ↦ absurd (ground arith)
          | inl (after, applied) ↦
              write_synced-Upserted t remote_id id input before after (changed before after) o t' e
                ours applied refl (ground arith)
        ]
      ]

  -- Over lawful tables, when the transaction of UpsertSynced succeeds, it has inserted a new unit
  -- of the remote with its history entry, or found the remote's unit with nothing to change and
  -- changed nothing, or written the changed fields and, if the position differs, its history entry.
  pub upsert_tables-Upserted :
      (t : Tables U P) (remote_id id : Uuid) (input : Input) (o : Outcome) (t' : Tables U P)
      → upsert_tables units positions t remote_id id input ≡ ok (o, t')
      → Upserted units positions t remote_id id input o t'
  unfolding upsert_tables
  upsert_tables-Upserted t remote_id id input o t' h =
      elim (Result-cases (wrap (first units t.units (by_id id)))) [
        | inr (x, bad) ↦ absurd (ground arith)
        | inl (found, good) ↦
            upsert_found-Upserted t remote_id id input found o t'
              (sym (first-rows units unit_laws t.units (by_id id) found (wrap-eq-ok _ good)))
              (ground arith)
      ]
