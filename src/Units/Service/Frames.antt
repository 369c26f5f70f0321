-- ===== src/Units/Service/Frames.antt =====
-- The tables after an operation are those before it, or those of its transaction.
use unit_management.Base.{
  ◌≡◌, refl, Option, none, some, List, [], ◌∷◌, ◌&&◌, not, is_some, Result, ok, err, ◌>>=◌,
}
use unit_management.Database.{Table}
use unit_management.Models.{Uuid, User, UnitRow, UnitPosition}
use unit_management.Units.Input.{UnitError, internal, Input, Field, Position, apply}
use unit_management.Units.Service.{
  Tables, State, by_id, get, blank, insert_unit, created_state, create, patch_tables, patched_state,
  after_patch, patch, unit_only, set_position, delete_units, deleted_state, delete,
}

module _ {U P : Type 0} (units : Table U UnitRow) (positions : Table P UnitPosition)
    (Q : Tables U P → Type 0) where
  created_state-frame :
      (s : State U P) (r : Result UnitError (UnitRow × Tables U P))
      → Q s.tables
      → ((u : UnitRow) (t : Tables U P) → r ≡ ok (u, t) → Q t)
      → Q (created_state units positions s r).1.tables
  unfolding created_state
  created_state-frame s (ok (u, t)) h k = k u t refl
  created_state-frame s (err e) h k = h

  patched_state-frame :
      (s : State U P) (id : Uuid) (fields : List Field) (t : Tables U P)
      (r : Result UnitError UnitRow)
      → Q t
      → Q (patched_state units positions s id fields t r).1.tables
  unfolding patched_state
  patched_state-frame s id fields t (ok u) h = h
  patched_state-frame s id fields t (err e) h = h

  after_patch-frame :
      (s : State U P) (id : Uuid) (r : Result UnitError (List Field × Tables U P))
      → Q s.tables
      → ((fields : List Field) (t : Tables U P) → r ≡ ok (fields, t) → Q t)
      → Q (after_patch units positions s id r).1.tables
  unfolding after_patch
  after_patch-frame s id (ok (fields, t)) h k =
      patched_state-frame s id fields t (get units positions t id) (k fields t refl)
  after_patch-frame s id (err e) h k = h

  pub patch-frame :
      (s : State U P) (id : Uuid) (edit : Input → Input) (by : User)
      → Q s.tables
      → ((fields : List Field) (t : Tables U P)
          → patch_tables units positions s.tables id edit by ≡ ok (fields, t)
          → Q t)
      → Q (patch units positions s id edit by).1.tables
  unfolding patch
  patch-frame s id edit by =
      after_patch-frame s id (patch_tables units positions s.tables id edit by)

  unit_only-frame :
      (r : Result UnitError (UnitRow × List Field) × State U P)
      → Q r.1.tables
      → Q (unit_only units positions r).1.tables
  unit_only-frame (ok (u, fields), s) h = h
  unit_only-frame (err e, s) h = h

  pub set_position-frame :
      (s : State U P) (id : Uuid) (p : Option Position) (by : User)
      → Q (patch units positions s id (λ current. record current { position = p }) by).1.tables
      → Q (set_position units positions s id p by).1.tables
  unfolding set_position
  set_position-frame s id p by = unit_only-frame _

  deleted_state-frame :
      (s : State U P) (id : Uuid) (r : Result UnitError (List UnitRow × Tables U P))
      → Q s.tables
      → ((gone : List UnitRow) (t : Tables U P) → r ≡ ok (gone, t) → Q t)
      → Q (deleted_state units positions s id r).1.tables
  unfolding deleted_state
  deleted_state-frame s id (ok ([], t)) h k = k [] t refl
  deleted_state-frame s id (ok (u ∷ gone, t)) h k = k (u ∷ gone) t refl
  deleted_state-frame s id (err e) h k = h

  pub delete-frame :
      (s : State U P) (id : Uuid)
      → Q s.tables
      → ((gone : List UnitRow) (t : Tables U P)
          → delete_units units positions s.tables
              (λ u. by_id id u && not (is_some u.sync_remote_id))
            ≡ ok (gone, t)
          → Q t)
      → Q (delete units positions s id).1.tables
  unfolding delete
  delete-frame s id = deleted_state-frame s id _

  created_rest :
      (s : State U P) (id : Uuid) (by : User) (r : Result UnitError UnitRow)
      → Q s.tables
      → ((u v : UnitRow) (t : Tables U P)
          → r ≡ ok u
          → insert_unit units positions s.tables u (some by) ≡ ok (v, t)
          → Q t)
      → Q
          (created_state units positions s
            (r >>= λ u. insert_unit units positions s.tables u (some by))).1.tables
  created_rest s id by (ok u) h k = created_state-frame s _ h (λ v t e. k u v t refl e)
  created_rest s id by (err e) h k = created_state-frame s (err e) h (λ v t e'. absurd (cc))

  pub create-frame :
      (s : State U P) (new_id : Option Uuid) (input : Input) (by : User)
      → Q s.tables
      → ((id : Uuid) (u v : UnitRow) (t : Tables U P)
          → apply (blank id (some by.id) none) input ≡ ok u
          → insert_unit units positions s.tables u (some by) ≡ ok (v, t)
          → Q t)
      → Q (create units positions s new_id input by).1.tables
  unfolding create
  create-frame s none input by h k = created_state-frame s (err internal) h (λ v t e'. absurd (cc))
  create-frame s (some id) input by h k =
      created_rest s id by (apply (blank id (some by.id) none) input) h (k id)
