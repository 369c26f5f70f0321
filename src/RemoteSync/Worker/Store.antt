-- ===== src/RemoteSync/Worker/Store.antt =====
-- What a worker relies on of the store of units: who owns each unit before and after its calls. The
-- owner of a unit is none if there is no such unit, and otherwise the remote it is mirrored from.
use unit_management.Base.{◌≡◌, ◌≢◌, Bool, Option, some, List, ok, err, any, true, ◌==◌}
use unit_management.Models.{Uuid}
use unit_management.Units.Input.{not_mirrored, Input}
use unit_management.RemoteSync.Worker.{UnitStore}

abbrev pub Owners : Type 0 → Type 0
Owners S = S → Uuid → Option (Option Uuid)

-- A unit that exists and is not mirrored from the remote: a local one, or another remote's.
abbrev pub Foreign : Uuid → Option (Option Uuid) → Type 0
Foreign remote o = (r : Option Uuid) × (o ≡ some r) × (r ≢ some remote)

pub record IsUnitStore {S : Type 0} (owner : Owners S) (units : UnitStore S) : Type 0 where
  pub upsert-others :
      (s : S) (remote id : Uuid) (input : Input) (j : Uuid)
      → j ≢ id
      → owner (units.upsert s remote id input).1 j ≡ owner s j
  pub upsert-ok :
      (s : S) (remote id : Uuid) (input : Input) (b : Bool)
      → (units.upsert s remote id input).0 ≡ ok b
      → owner (units.upsert s remote id input).1 id ≡ some (some remote)
  pub upsert-not_mirrored :
      (s : S) (remote id : Uuid) (input : Input)
      → (units.upsert s remote id input).0 ≡ err not_mirrored
      → Foreign remote (owner (units.upsert s remote id input).1 id)
  -- No call touches a unit that is not the remote's.
  pub upsert-foreign :
      (s : S) (remote id : Uuid) (input : Input)
      → Foreign remote (owner s id)
      → owner (units.upsert s remote id input).1 id ≡ owner s id
  pub delete-others :
      (s : S) (remote id j : Uuid) → j ≢ id → owner (units.delete s remote id).1 j ≡ owner s j
  pub delete-ok :
      (s : S) (remote id : Uuid) (b : Bool)
      → (units.delete s remote id).0 ≡ ok b
      → owner (units.delete s remote id).1 id ≢ some (some remote)
  pub delete-foreign :
      (s : S) (remote id : Uuid)
      → owner s id ≢ some (some remote)
      → owner (units.delete s remote id).1 id ≡ owner s id
  pub synced-ok :
      (s : S) (remote : Uuid) (ids : List Uuid)
      → units.synced s remote ≡ ok ids
      → (j : Uuid) → owner s j ≡ some (some remote)
      → any (λ id. id == j) ids ≡ true
