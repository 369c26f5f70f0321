-- ===== src/RemoteSync/Worker/Pass.antt =====
-- The upserts of a full pass: what they have reached when they report no error, and what they leave.
use mathlib.Core.Path.{subst}
use unit_management.Base.{
  ◌≡◌, ◌≢◌, ◌⊎◌, inl, inr, refl, sym, ap, ◌∙◌, Bool, true, false, some, List, [], ◌∷◌, ◌++◌, arith,
  ◌==◌, ==_iff, Result, ok, err, Bool-cases,
}
use unit_management.Models.{Uuid}
use unit_management.Units.Input.{UnitError, not_mirrored}
use unit_management.RemoteSync.Worker.{
  UnitStore, RemoteUnit, input, Progress, SyncError, is_listed, upserted, upsert_all,
}
use unit_management.RemoteSync.Worker.Store.{Owners, Foreign, IsUnitStore}

-- The errors so far stay.
pub no_errors_before : (es : List SyncError) (e : SyncError) → es ++ e ∷ [] ≢ []
no_errors_before [] e h = cc
no_errors_before (x ∷ es) e h = cc

module _ {S : Type 0} (owner : Owners S) (units : UnitStore S) (laws : IsUnitStore owner units)
    (remote : Uuid) where
  abbrev after_upsert : Progress S → RemoteUnit → Progress S
  after_upsert p u = upserted units remote p u.id (units.upsert p.store remote u.id (input u))

  upserted-store :
      (p : Progress S) (id : Uuid) (r : Result UnitError Bool × S)
      → (upserted units remote p id r).store ≡ r.1
  unfolding upserted
  upserted-store p id (ok true, s) = refl
  upserted-store p id (ok false, s) = refl
  upserted-store p id (err e, s) = ground arith

  -- Mirrored from the remote, or there and not the remote's.
  abbrev pub Settled : S → Uuid → Type 0
  Settled s j = (owner s j ≡ some (some remote)) ⊎ Foreign remote (owner s j)

  upserted-Settled :
      (p : Progress S) (id : Uuid) (r : Result UnitError Bool × S)
      → ((b : Bool) → r.0 ≡ ok b → owner r.1 id ≡ some (some remote))
      → (r.0 ≡ err not_mirrored → Foreign remote (owner r.1 id))
      → (upserted units remote p id r).errs ≡ []
      → (p.errs ≡ []) × Settled (upserted units remote p id r).store id
  unfolding upserted
  upserted-Settled p id (ok true, s) mine other h = (h, inl (mine true refl))
  upserted-Settled p id (ok false, s) mine other h = (h, inl (mine false refl))
  upserted-Settled p id (err not_mirrored, s) mine other h = (h, inr (other refl))
  upserted-Settled p id (err e, s) mine other h = absurd (no_errors_before p.errs _ h)

  after_upsert-others :
      (p : Progress S) (u : RemoteUnit) (j : Uuid)
      → (u.id == j) ≡ false
      → owner (after_upsert p u).store j ≡ owner p.store j
  after_upsert-others p u j ne =
      ap (λ s. owner s j) (upserted-store p u.id _)
      ∙ laws.upsert-others p.store remote u.id (input u) j (λ same. ground arith)

  pub upsert_all-Settled :
      (p : Progress S) (list : List RemoteUnit) (j : Uuid)
      → (upsert_all units remote p list).errs ≡ []
      → (p.errs ≡ [])
        × ((is_listed list j ≡ true) ⊎ Settled p.store j
            → Settled (upsert_all units remote p list).store j)
        × (is_listed list j ≡ false
            → owner (upsert_all units remote p list).store j ≡ owner p.store j)
  unfolding upsert_all is_listed
  upsert_all-Settled p [] j h = (h, settled, λ _. refl)
    where
      settled : (false ≡ true) ⊎ Settled p.store j → Settled p.store j
      settled (inl bad) = absurd (cc)
      settled (inr s) = s
  upsert_all-Settled p (u ∷ list) j h =
      let (clean, later, untouched) = upsert_all-Settled (after_upsert p u) list j h in
      let (before, here) =
        upserted-Settled p u.id (units.upsert p.store remote u.id (input u))
          (λ b.
            subst
              (λ s.
                (units.upsert p.store remote u.id (input u)).0 ≡ ok b
                → owner s u.id ≡ some (some remote))
              refl (laws.upsert-ok p.store remote u.id (input u) b))
          (laws.upsert-not_mirrored p.store remote u.id (input u)) clean in
      elim (Bool-cases (u.id == j)) [
        | inl same ↦
            let e : u.id ≡ j = (==_iff u.id j).0 same in
            (
              before,
              λ _. later (inr (subst (Settled (after_upsert p u).store) e here)),
              λ bad. absurd (ground arith),
            )
        | inr ne ↦
            let keep = after_upsert-others p u j ne in
            (
              before,
              λ c. later (elim c [
                | inl l ↦ inl (ground arith)
                | inr s ↦
                    inr (subst (λ o. (o ≡ some (some remote)) ⊎ Foreign remote o) (sym keep) s)
              ]),
              λ l. untouched (ground arith) ∙ keep,
            )
      ]

  pub upsert_all-Foreign :
      (p : Progress S) (list : List RemoteUnit) (j : Uuid)
      → Foreign remote (owner p.store j)
      → owner (upsert_all units remote p list).store j ≡ owner p.store j
  unfolding upsert_all
  upsert_all-Foreign p [] j other = refl
  upsert_all-Foreign p (u ∷ list) j other =
      let keep : owner (after_upsert p u).store j ≡ owner p.store j =
        elim (Bool-cases (u.id == j)) [
          | inr ne ↦ after_upsert-others p u j ne
          | inl same ↦
              subst
                (λ k.
                  Foreign remote (owner p.store k)
                  → owner (after_upsert p u).store k ≡ owner p.store k)
                ((==_iff u.id j).0 same)
                (λ o.
                  ap (λ s. owner s u.id) (upserted-store p u.id _)
                  ∙ laws.upsert-foreign p.store remote u.id (input u) o)
                other
        ] in
      upsert_all-Foreign (after_upsert p u) list j (subst (Foreign remote) (sym keep) other) ∙ keep
