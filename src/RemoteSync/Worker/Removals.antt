-- ===== src/RemoteSync/Worker/Removals.antt =====
-- The deletions of a full pass.
use mathlib.Core.Path.{subst}
use unit_management.Base.{
  ◌≡◌, ◌≢◌, inl, inr, refl, sym, ap, ◌∙◌, Bool, true, false, some, List, [], ◌∷◌, arith, ◌==◌,
  ==_iff, if◌then◌else◌, any, Result, ok, err, Bool-cases,
}
use unit_management.Models.{Uuid}
use unit_management.Units.Input.{UnitError}
use unit_management.RemoteSync.Worker.{
  UnitStore, RemoteUnit, Progress, is_listed, removed, remove, delete_unlisted, summed_up,
}
use unit_management.RemoteSync.Worker.Store.{Owners, IsUnitStore}
use unit_management.RemoteSync.Worker.Pass.{no_errors_before}

module _ {S : Type 0} (owner : Owners S) (units : UnitStore S) (laws : IsUnitStore owner units)
    (remote : Uuid) where
  removed-store :
      (p : Progress S) (id : Uuid) (r : Result UnitError Bool × S)
      → (removed units remote p id r).store ≡ r.1
  unfolding removed
  removed-store p id (ok b, s) = refl
  removed-store p id (err e, s) = refl

  remove-store :
      (p : Progress S) (id : Uuid)
      → (remove units remote p id).store ≡ (units.delete p.store remote id).1
  unfolding remove
  remove-store p id = removed-store p id _

  remove-ok :
      (p : Progress S) (id : Uuid)
      → (remove units remote p id).errs ≡ []
      → (p.errs ≡ []) × (owner (remove units remote p id).store id ≢ some (some remote))
  unfolding remove
  remove-ok p id h = go (units.delete p.store remote id) (λ b. laws.delete-ok p.store remote id b) h
    where
      go :
          (r : Result UnitError Bool × S)
          → ((b : Bool) → r.0 ≡ ok b → owner r.1 id ≢ some (some remote))
          → (removed units remote p id r).errs ≡ []
          → (p.errs ≡ []) × (owner (removed units remote p id r).store id ≢ some (some remote))
      go (ok b, s) gone e = (unfold removed in e, unfold removed in gone b refl)
      go (err x, s) gone e = absurd (no_errors_before p.errs _ (unfold removed in e))

  remove-others :
      (p : Progress S) (id j : Uuid)
      → (id == j) ≡ false
      → owner (remove units remote p id).store j ≡ owner p.store j
  remove-others p id j ne =
      ap (λ s. owner s j) (remove-store p id)
      ∙ laws.delete-others p.store remote id j (λ same. ground arith)

  remove-foreign :
      (p : Progress S) (id j : Uuid)
      → owner p.store j ≢ some (some remote)
      → owner (remove units remote p id).store j ≡ owner p.store j
  remove-foreign p id j other = elim (Bool-cases (id == j)) [
    | inr ne ↦ remove-others p id j ne
    | inl same ↦
        subst
          (λ k.
            owner p.store k ≢ some (some remote)
            → owner (remove units remote p id).store k ≡ owner p.store k)
          ((==_iff id j).0 same)
          (λ o. ap (λ s. owner s id) (remove-store p id) ∙ laws.delete-foreign p.store remote id o)
          other
  ]

  skipped :
      (list : List RemoteUnit) (p : Progress S) (id : Uuid) (ids : List Uuid)
      → is_listed list id ≡ true
      → delete_unlisted units remote list p (id ∷ ids) ≡ delete_unlisted units remote list p ids
  unfolding delete_unlisted
  skipped list p id ids l =
      ap (λ b. delete_unlisted units remote list (if b then p else remove units remote p id) ids) l

  cleared :
      (list : List RemoteUnit) (p : Progress S) (id : Uuid) (ids : List Uuid)
      → is_listed list id ≡ false
      → delete_unlisted units remote list p (id ∷ ids)
        ≡ delete_unlisted units remote list (remove units remote p id) ids
  unfolding delete_unlisted
  cleared list p id ids l =
      ap (λ b. delete_unlisted units remote list (if b then p else remove units remote p id) ids) l

  -- No deletion touches a unit that is not the remote's.
  pub delete_unlisted-foreign :
      (list : List RemoteUnit) (p : Progress S) (ids : List Uuid) (j : Uuid)
      → owner p.store j ≢ some (some remote)
      → owner (delete_unlisted units remote list p ids).store j ≡ owner p.store j
  unfolding delete_unlisted
  delete_unlisted-foreign list p [] j other = refl
  delete_unlisted-foreign list p (id ∷ ids) j other = elim (Bool-cases (is_listed list id)) [
    | inl l ↦
        ap (λ q. owner q.store j) (skipped list p id ids l)
        ∙ delete_unlisted-foreign list p ids j other
    | inr l ↦
        let keep = remove-foreign p id j other in
        ap (λ q. owner q.store j) (cleared list p id ids l)
        ∙ (delete_unlisted-foreign list (remove units remote p id) ids j
              (subst (λ o. o ≢ some (some remote)) (sym keep) other)
            ∙ keep)
  ]

  -- No deletion touches a listed unit.
  pub delete_unlisted-listed :
      (list : List RemoteUnit) (p : Progress S) (ids : List Uuid) (j : Uuid)
      → is_listed list j ≡ true
      → owner (delete_unlisted units remote list p ids).store j ≡ owner p.store j
  unfolding delete_unlisted
  delete_unlisted-listed list p [] j h = refl
  delete_unlisted-listed list p (id ∷ ids) j h = elim (Bool-cases (is_listed list id)) [
    | inl l ↦
        ap (λ q. owner q.store j) (skipped list p id ids l) ∙ delete_unlisted-listed list p ids j h
    | inr l ↦
        ap (λ q. owner q.store j) (cleared list p id ids l)
        ∙ (delete_unlisted-listed list (remove units remote p id) ids j h
            ∙ remove-others p id j (differ id l))
  ]
    where
      differ : (id : Uuid) → is_listed list id ≡ false → (id == j) ≡ false
      differ id l = elim (Bool-cases (id == j)) [
        | inr ne ↦ ne
        | inl same ↦ absurd (let e : id ≡ j = (==_iff id j).0 same in ground arith)
      ]

  pub delete_unlisted-gone :
      (list : List RemoteUnit) (p : Progress S) (ids : List Uuid) (j : Uuid)
      → (delete_unlisted units remote list p ids).errs ≡ []
      → (p.errs ≡ [])
        × (is_listed list j ≡ false
            → any (λ id. id == j) ids ≡ true
            → owner (delete_unlisted units remote list p ids).store j ≢ some (some remote))
  unfolding delete_unlisted
  delete_unlisted-gone list p [] j h = (h, λ l bad. absurd (cc))
  delete_unlisted-gone list p (id ∷ ids) j h = elim (Bool-cases (is_listed list id)) [
    | inl l ↦
        let same = skipped list p id ids l in
        let (clean, gone) = delete_unlisted-gone list p ids j (ap (λ q. q.errs) (sym same) ∙ h) in
        (
          clean,
          λ unlisted found.
              subst (λ q. owner q.store j ≢ some (some remote)) (sym same)
                (gone unlisted (elim (Bool-cases (id == j)) [
                  | inl hit ↦ absurd (let e : id ≡ j = (==_iff id j).0 hit in ground arith)
                  | inr miss ↦ ground arith
                ])),
        )
    | inr l ↦
        let same = cleared list p id ids l in
        let (later, gone) =
          delete_unlisted-gone list (remove units remote p id) ids j
            (ap (λ q. q.errs) (sym same) ∙ h) in
        let (clean, here) = remove-ok p id later in
        (
          clean,
          λ unlisted found.
              subst (λ q. owner q.store j ≢ some (some remote)) (sym same)
                (elim (Bool-cases (id == j)) [
                  | inl hit ↦
                      let out : owner (remove units remote p id).store j ≢ some (some remote) =
                        subst (λ k. owner (remove units remote p id).store k ≢ some (some remote))
                          ((==_iff id j).0 hit) here in
                      λ bad. out (
                        sym (delete_unlisted-foreign list (remove units remote p id) ids j out)
                        ∙ bad)
                  | inr miss ↦ gone unlisted (ground arith)
                ]),
        )
  ]

  pub summed_up-same :
      (p : Progress S)
      → ((summed_up units remote p).store ≡ p.store) × ((summed_up units remote p).errs ≡ p.errs)
  unfolding summed_up
  summed_up-same p = (ground arith, ground arith)
