-- ===== src/Units/Invariant.antt =====
-- The invariants of the units' tables over any sequence of calls of the service.
use mathlib.Core.Path.{subst}
use unit_management.Base.{
  ◌≡◌, sym, Bool, Option, some, List, [], ◌∷◌, ok, All, All-append, All-map_if, All-keep_if,
}
use unit_management.Database.{Table, IsTable}
use unit_management.Models.{Uuid, User, UnitRow, UnitPosition}
use unit_management.Units.Input.{Input, Field, Position}
use unit_management.Units.Input.Validity.{IsValid, apply-IsValid, with_ids-IsValid}
use unit_management.Units.Service.{
  Tables, State, create, patch, update, set_position, delete, delete_units, write_patch, written,
  written_synced,
}
use unit_management.Units.Service.Lookup.{KeptUnit, KeptPosition}
use unit_management.Units.Service.Patching.{patch_tables-Patched}
use unit_management.Units.Service.Effects.{touched, write_patch-Written, idle_tables}
use unit_management.Units.Service.Transactions.{insert_unit-Inserted, delete_units-Deleted}
use unit_management.Units.Service.Frames.{
  create-frame, patch-frame, set_position-frame, delete-frame,
}
use unit_management.Units.Sync.Frames.{upsert_synced-frame, delete_synced-frame}
use unit_management.Units.Sync.Effects.{
  Upserted, new_unit, same_unit, changed_unit, upsert_tables-Upserted,
}
use unit_management.Units.Sync.{upsert_synced, delete_synced, Outcome}

-- The calls of the service that change its state.
pub data Call : Type 0 where
  creates : Option Uuid → Input → User → Call
  patches : Uuid → (Input → Input) → User → Call
  updates : Uuid → Input → User → Call
  sets_position : Uuid → Option Position → User → Call
  deletes : Uuid → Call
  upserts : Uuid → Uuid → Input → Call
  deletes_synced : Uuid → Uuid → Call

module _ {U P : Type 0} (units : Table U UnitRow) (positions : Table P UnitPosition)
    (unit_laws : IsTable KeptUnit units) (position_laws : IsTable KeptPosition positions) where
  -- Every stored unit is valid.
  abbrev pub AllValid : Tables U P → Type 0
  AllValid t = All IsValid (units.rows t.units)

  written-IsValid : (new old : UnitRow) → IsValid new → IsValid (written new old)
  unfolding written
  written-IsValid new old v =
      with_ids-IsValid new old.id old.created_by_id new.updated_by_id new.sync_remote_id v

  written_synced-IsValid : (new old : UnitRow) → IsValid new → IsValid (written_synced new old)
  unfolding written_synced
  written_synced-IsValid new old v =
      with_ids-IsValid new old.id old.created_by_id new.updated_by_id old.sync_remote_id v

  write_patch-AllValid :
      (t : Tables U P) (before after : UnitRow) (by : User) (fs gs : List Field) {t' : Tables U P}
      → AllValid t
      → IsValid after
      → write_patch units positions t before after by fs ≡ ok (gs, t')
      → AllValid t'
  write_patch-AllValid t before after by [] gs v va h =
      subst AllValid (idle_tables units positions unit_laws position_laws t before after by h) v
  write_patch-AllValid t before after by (f ∷ fs) gs v va h =
      let w =
        write_patch-Written units positions unit_laws position_laws t before after by f fs h in
      subst (All IsValid) (sym w.rows) (
        All-map_if IsValid _ _ (units.rows t.units)
          (λ old _. written-IsValid (touched after by) old (
            with_ids-IsValid after after.id after.created_by_id (some by.id) after.sync_remote_id
              va))
          v)

  patch-AllValid :
      (s : State U P) (id : Uuid) (edit : Input → Input) (by : User)
      → AllValid s.tables
      → AllValid (patch units positions s id edit by).1.tables
  patch-AllValid s id edit by v = patch-frame units positions AllValid s id edit by v λ fields t h.
      let p = patch_tables-Patched units positions unit_laws s.tables id edit by h in
      write_patch-AllValid s.tables p.before p.after by _ fields v
        (apply-IsValid p.before _ p.applied) p.writes

  Upserted-AllValid :
      (t : Tables U P) (remote_id id : Uuid) (input : Input) (o : Outcome) (t' : Tables U P)
      → AllValid t
      → Upserted units positions t remote_id id input o t'
      → AllValid t'
  Upserted-AllValid t remote_id id input o t' v (new_unit u w _ _ applied ins) =
      subst (All IsValid) (sym ins.rows)
        (All-append IsValid (units.rows t.units) (u ∷ []) v (apply-IsValid _ input applied, tt))
  Upserted-AllValid t remote_id id input o t' v (same_unit before after _ _ _ _ _ same) =
      subst AllValid (sym same) v
  Upserted-AllValid t remote_id id input o t' v (changed_unit before after f fs _ _ _ applied _ w) =
      subst (All IsValid) (sym w.rows) (
        All-map_if IsValid _ _ (units.rows t.units)
          (λ old _. written_synced-IsValid after old (apply-IsValid before input applied)) v)

  Deleted-AllValid :
      (t : Tables U P) (which : UnitRow → Bool) (gone : List UnitRow) (t' : Tables U P)
      → AllValid t
      → delete_units units positions t which ≡ ok (gone, t')
      → AllValid t'
  Deleted-AllValid t which gone t' v h =
      let d = delete_units-Deleted units positions unit_laws position_laws t which gone t' h in
      subst (All IsValid) (sym d.rows) (All-keep_if IsValid _ (units.rows t.units) v)

  -- One call of the service.
  pub step : State U P → Call → State U P
  step s (creates new_id input by) = (create units positions s new_id input by).1
  step s (patches id edit by) = (patch units positions s id edit by).1
  step s (updates id input by) = (update units positions s id input by).1
  step s (sets_position id p by) = (set_position units positions s id p by).1
  step s (deletes id) = (delete units positions s id).1
  step s (upserts remote_id id input) = (upsert_synced units positions s remote_id id input).1
  step s (deletes_synced remote_id id) = (delete_synced units positions s remote_id id).1

  pub run : State U P → List Call → State U P
  run s [] = s
  run s (c ∷ cs) = run (step s c) cs

  step-AllValid : (s : State U P) (c : Call) → AllValid s.tables → AllValid (step s c).tables
  unfolding step update
  step-AllValid s (creates new_id input by) v =
      create-frame units positions AllValid s new_id input by v λ id u w t applied h.
        let ins =
          insert_unit-Inserted units positions unit_laws position_laws s.tables u (some by) w t h in
        subst (All IsValid) (sym ins.rows) (
          All-append IsValid (units.rows s.tables.units) (u ∷ []) v
            (apply-IsValid _ input applied, tt))
  step-AllValid s (patches id edit by) v = patch-AllValid s id edit by v
  step-AllValid s (updates id input by) v = patch-AllValid s id _ by v
  step-AllValid s (sets_position id p by) v =
      set_position-frame units positions AllValid s id p by (patch-AllValid s id _ by v)
  step-AllValid s (deletes id) v =
      delete-frame units positions AllValid s id v
        λ gone t h. Deleted-AllValid s.tables _ gone t v h
  step-AllValid s (upserts remote_id id input) v =
      upsert_synced-frame units positions AllValid s remote_id id input v λ o t h.
        Upserted-AllValid s.tables remote_id id input o t v (
          upsert_tables-Upserted units positions unit_laws position_laws s.tables remote_id id input
            o t h)
  step-AllValid s (deletes_synced remote_id id) v =
      delete_synced-frame units positions AllValid s remote_id id v
        λ gone t h. Deleted-AllValid s.tables _ gone t v h

  -- Over lawful tables, if every stored unit is valid, it stays so over any sequence of calls of
  -- the units service, local or synced, whichever of them fail.
  pub run-AllValid :
      (s : State U P) (cs : List Call) → AllValid s.tables → AllValid (run s cs).tables
  unfolding run
  run-AllValid s [] v = v
  run-AllValid s (c ∷ cs) v = run-AllValid (step s c) cs (step-AllValid s c v)
