-- ===== src/RemoteSync/Worker/Mirror.antt =====
-- syncOnce as a whole, over any store that keeps its promises.
use mathlib.Core.Path.{subst}
use unit_management.Base.{
  ◌≡◌, ◌≢◌, ◌⊎◌, inl, inr, refl, sym, ap, ◌∙◌, true, false, Option, none, some, List, [], arith,
  ◌==◌, Result, ok, err, Result-cases, Bool-cases, ==_iff,
}
use unit_management.Models.{Uuid}
use unit_management.Units.Input.{UnitError}
use unit_management.RemoteSync.Worker.{
  UnitStore, RemoteUnit, Progress, is_listed, upsert_all, delete_unlisted, after_upserts, start,
  sync_once,
}
use unit_management.RemoteSync.Worker.Store.{Owners, Foreign, IsUnitStore}
use unit_management.RemoteSync.Worker.Pass.{
  no_errors_before, upsert_all-Settled, upsert_all-Foreign,
}
use unit_management.RemoteSync.Worker.Removals.{
  delete_unlisted-foreign, delete_unlisted-listed, delete_unlisted-gone, summed_up-same,
}

-- What a pass over the list has made of the unit `j`, owned by `before` at its start.
pub record Mirrored (remote : Uuid) (list : List RemoteUnit) (j : Uuid)
    (before after : Option (Option Uuid)) : Type 0 where
  -- A listed unit is mirrored, unless it is local or another remote's.
  pub listed_here : is_listed list j ≡ true → (after ≡ some (some remote)) ⊎ Foreign remote after
  -- A unit that is not listed is not mirrored from the remote any more.
  pub unlisted_gone : is_listed list j ≡ false → after ≢ some (some remote)
  -- Any other unit that is not listed is as it was.
  pub rest_kept : is_listed list j ≡ false → before ≢ some (some remote) → after ≡ before

mine? :
    (remote : Uuid) (o : Option (Option Uuid)) → (o ≡ some (some remote)) ⊎ (o ≢ some (some remote))
mine? remote none = inr (λ h. absurd (cc))
mine? remote (some none) = inr (λ h. absurd (cc))
mine? remote (some (some r)) = elim (Bool-cases (r == remote)) [
  | inl same ↦ inl (ap (λ x. some (some x)) ((==_iff r remote).0 same))
  | inr ne ↦ inr (λ h. ground arith)
]

module _ {S : Type 0} (owner : Owners S) (units : UnitStore S) (laws : IsUnitStore owner units)
    (remote : Uuid) where
  after_upserts-Mirrored :
      (s : S) (list : List RemoteUnit) (j : Uuid)
      → (after_upserts units remote list
          (upsert_all units remote (start units remote s) list)
          (units.synced (upsert_all units remote (start units remote s) list).store remote)).errs
        ≡ []
      → Mirrored remote list j (owner s j) (
          owner
            (after_upserts units remote list (upsert_all units remote (start units remote s) list) (
              units.synced
                (upsert_all units remote (start units remote s) list).store
                remote)).store
            j)
  unfolding after_upserts start
  after_upserts-Mirrored s list j =
      let p = upsert_all units remote (start units remote s) list in
      elim (Result-cases (units.synced p.store remote)) [
        | inr (e, bad) ↦ rw bad (λ h. absurd (no_errors_before p.errs _ h))
        | inl (ids, good) ↦ rw good λ h.
            let (same_store, same_errs) =
              summed_up-same owner units laws remote (delete_unlisted units remote list p ids) in
            let (clean, gone) =
              delete_unlisted-gone owner units laws remote list p ids j (sym same_errs ∙ h) in
            let (_, settled, untouched) =
              upsert_all-Settled owner units laws remote (start units remote s) list j clean in
            subst (λ x. Mirrored remote list j (owner s j) (owner x j)) (sym same_store)
              (record {
                listed_here = λ l.
                    subst (λ o. (o ≡ some (some remote)) ⊎ Foreign remote o)
                      (sym (delete_unlisted-listed owner units laws remote list p ids j l))
                      (settled (inl l));
                unlisted_gone = λ l mine. elim (mine? remote (owner p.store j)) [
                  | inl was ↦ gone l (laws.synced-ok p.store remote ids good j was) mine
                  | inr other ↦ other (
                      sym (delete_unlisted-foreign owner units laws remote list p ids j other)
                      ∙ mine)
                ];
                rest_kept = λ l other.
                    let keep = untouched l in
                    delete_unlisted-foreign owner units laws remote list p ids j
                      (subst (λ o. o ≢ some (some remote)) (sym keep) other)
                    ∙ keep;
              })
      ]

  -- After a full pass that reports no error, over a store that keeps its promises, every unit that
  -- the remote listed is mirrored from it unless it is local or another remote's, no unit that it
  -- did not list is mirrored from it, and every other unit that it did not list is owned as before.
  pub sync_once-Mirrored :
      (s : S) (list : List RemoteUnit) (j : Uuid)
      → (sync_once units remote s (some list)).errs ≡ []
      → Mirrored remote list j (owner s j) (owner (sync_once units remote s (some list)).store j)
  unfolding sync_once
  sync_once-Mirrored s list j h = after_upserts-Mirrored s list j h

  after_upserts-Foreign :
      (p : Progress S) (list : List RemoteUnit) (r : Result UnitError (List Uuid)) (j : Uuid)
      → owner p.store j ≢ some (some remote)
      → owner (after_upserts units remote list p r).store j ≡ owner p.store j
  unfolding after_upserts
  after_upserts-Foreign p list (err e) j other = refl
  after_upserts-Foreign p list (ok ids) j other =
      let (same_store, _) =
        summed_up-same owner units laws remote (delete_unlisted units remote list p ids) in
      ap (λ x. owner x j) same_store
      ∙ delete_unlisted-foreign owner units laws remote list p ids j other

  -- Whatever fails in a pass over a store that keeps its promises, a unit that is local or another
  -- remote's keeps its owner.
  pub sync_once-Foreign :
      (s : S) (list : Option (List RemoteUnit)) (j : Uuid)
      → Foreign remote (owner s j)
      → owner (sync_once units remote s list).store j ≡ owner s j
  unfolding sync_once start
  sync_once-Foreign s none j other = refl
  sync_once-Foreign s (some list) j (r, e, ne) =
      let p = upsert_all units remote (start units remote s) list in
      let keep =
        upsert_all-Foreign owner units laws remote (start units remote s) list j (r, e, ne) in
      after_upserts-Foreign p list (units.synced p.store remote) j
        (λ mine. ne (some-injective (sym e ∙ (sym keep ∙ mine))))
      ∙ keep
    where
      some-injective : {a b : Option Uuid} → some a ≡ some b → a ≡ b
      some-injective h = cc
