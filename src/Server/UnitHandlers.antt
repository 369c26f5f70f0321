-- ===== src/Server/UnitHandlers.antt =====
-- internal/server/unit_handlers.go: the requests on units. A path segment or a body is none where it
-- does not parse. A response is a status with the unit or the history that its body renders; of an
-- entry of the audit log the action and the target are kept.
pub mod Requests
use unit_management.Base.{
  ℕ, Bool, true, false, not, ◌&&◌, ◌||◌, Option, none, some, List, [], ◌∷◌, ◌++◌, ◌==◌, ltb, leb,
  if◌then◌else◌, Result, ok, err, ◌>>=◌, ◌>>◌, guard,
}
use unit_management.Text.{Text}
use unit_management.Float.{Float}
use unit_management.Database.{Table}
use unit_management.Models.{
  Uuid, Time, zero_time, User, UnitRow, UnitPosition, UnitSymbol, TacticalName,
}
use unit_management.Units.Input.{
  UnitError, unit_not_found, name_taken, invalid_name, invalid_position, invalid_symbol,
  invalid_tactical_name, unit_synced, not_mirrored, internal, Position, Input, Field,
}
use unit_management.Units.Service.{get, create, update, patch, set_position, delete}
use unit_management.Units.Service
use unit_management.Units.History.{history, max_history_limit}

pub data Action : Type 0 where
  unit_create unit_update unit_delete : Action

pub record Entry : Type 0 where
  pub action : Action
  pub target : Uuid

pub record State (U P : Type 0) : Type 0 where
  pub service : Service.State U P
  pub audit : List Entry

-- A response that is no success has its status only.
pub data Response : Type 0 where
  refused : ℕ → Response
  with_unit : ℕ → UnitRow → Response
  with_history : List UnitPosition → Response
  no_content : Response

-- writeUnitError
unfoldable pub unit_error_status : UnitError → ℕ
unit_error_status unit_not_found = 404
unit_error_status name_taken = 409
unit_error_status unit_synced = 409
unit_error_status invalid_name = 400
unit_error_status invalid_position = 400
unit_error_status invalid_symbol = 400
unit_error_status invalid_tactical_name = 400
unit_error_status not_mirrored = 500
unit_error_status internal = 500

-- unitRequest; `position` says whether the body has one.
pub record UnitRequest : Type 0 where
  pub name : Text
  pub symbol : Option UnitSymbol
  pub tactical_name : Option TacticalName
  pub position : Bool

-- unitRequest.input
unfoldable pub request_input : UnitRequest → Input
request_input req = record {
  name = req.name;
  position = none;
  symbol = req.symbol;
  tactical_name = req.tactical_name;
}

-- A raw field of a patch: not in the body, null, of the wrong type, or a value.
pub data Raw (A : Type 0) : Type 0 where
  absent : Raw A
  null : Raw A
  malformed : Raw A
  value : A → Raw A

pub record UnitPatchRequest : Type 0 where
  pub name : Raw Text
  pub symbol : Raw UnitSymbol
  pub tactical_name : Raw TacticalName
  pub position : Bool

abbrev pub well_formed : {A : Type 0} → Raw A → Bool
well_formed malformed = false
well_formed r = true

abbrev pub is_null : {A : Type 0} → Raw A → Bool
is_null null = true
is_null r = false

abbrev pub over : {A : Type 0} → Raw A → Option A → Option A
over absent old = old
over null old = none
over malformed old = old
over (value a) old = some a

abbrev pub over_name : Raw Text → Text → Text
over_name (value name) old = name
over_name r old = old

pub data PatchError : Type 0 where
  invalid_body null_name : PatchError

-- unitPatchRequest.patch
unfoldable pub patch_of : UnitPatchRequest → Result PatchError (Input → Input)
patch_of req = do
  guard (well_formed req.name && well_formed req.symbol && well_formed req.tactical_name)
      invalid_body
  guard (not (is_null req.name)) null_name
  ok λ current. record current {
    name = over_name req.name current.name;
    symbol = over req.symbol current.symbol;
    tactical_name = over req.tactical_name current.tactical_name;
  }

pub record PositionJson : Type 0 where
  pub lat : Float
  pub lon : Float
  pub height : Option Float
  pub accuracy : Option Float
  pub speed : Option Float
  pub course : Option Float
  pub timestamp : Option Time

-- positionJSON.position, at the current time
unfoldable pub position_at : PositionJson → Time → Position
position_at p now = record {
  latitude = p.lat;
  longitude = p.lon;
  height = p.height;
  accuracy = p.accuracy;
  speed = p.speed;
  course = p.course;
  timestamp = elim p.timestamp [ none ↦ now | some t ↦ t ];
}

-- A query parameter: absent or empty, or with the value that it parses to, if it parses.
pub data Param : Type 0 where
  not_given : Param
  unreadable : Param
  given : ℕ → Param

pub data QueryError : Type 0 where
  bad_limit bad_since bad_to to_before_since : QueryError

unfoldable pub query_limit : Param → Result QueryError ℕ
query_limit not_given = ok max_history_limit
query_limit unreadable = err bad_limit
query_limit (given n) = if ltb n 1 || ltb max_history_limit n then err bad_limit else ok n

unfoldable pub query_time : QueryError → Param → Result QueryError Time
query_time e not_given = ok zero_time
query_time e unreadable = err e
query_time e (given t) = ok t

-- The bound `to`, once `since` is known.
unfoldable pub query_to : Time → Param → Result QueryError Time
query_to since not_given = ok zero_time
query_to since unreadable = err bad_to
query_to since (given to) =
    if not (since == zero_time) && ltb to since then err to_before_since else ok to

-- parseHistoryQuery
unfoldable pub parse_history_query : Param → Param → Param → Result QueryError (ℕ × Time × Time)
parse_history_query limit since to = do
  n ← query_limit limit
  from ← query_time bad_since since
  until ← query_to from to
  ok (n, from, until)

module _ {U P : Type 0} (units : Table U UnitRow) (positions : Table P UnitPosition) where
  -- handleGetUnit
  unfoldable pub handle_get_unit : State U P → Option Uuid → Response
  handle_get_unit s none = refused 404
  handle_get_unit s (some id) = elim (get units positions s.service.tables id) [
    | err e ↦ refused (unit_error_status e)
    | ok u ↦ with_unit 200 u
  ]

  unfoldable pub history_response :
      State U P → Uuid → Result QueryError (ℕ × Time × Time) → Response
  history_response s id (err e) = refused 400
  history_response s id (ok (limit, since, to)) =
      elim (history units positions s.service.tables id limit since to) [
        | err e ↦ refused (unit_error_status e)
        | ok es ↦ with_history es
      ]

  -- handleUnitPositions
  unfoldable pub handle_unit_positions : State U P → Option Uuid → Param → Param → Param → Response
  handle_unit_positions s none limit since to = refused 404
  handle_unit_positions s (some id) limit since to =
      history_response s id (parse_history_query limit since to)

  unfoldable pub created_response :
      List Entry → Result UnitError UnitRow × Service.State U P → Response × State U P
  created_response log (err e, s) =
      (refused (unit_error_status e), record { service = s; audit = log })
  created_response log (ok u, s) = (
    with_unit 201 u,
    record { service = s; audit = log ++ record { action = unit_create; target = u.id } ∷ [] },
  )

  -- handleCreateUnit
  unfoldable pub handle_create_unit :
      State U P → Option UnitRequest → Option Uuid → User → Response × State U P
  handle_create_unit s none new_id by = (refused 400, s)
  handle_create_unit s (some req) new_id by =
      if req.position
      then (refused 400, s)
      else created_response s.audit (create units positions s.service new_id (request_input req) by)

  -- recordUnitUpdate
  unfoldable pub record_unit_update : List Entry → UnitRow → List Field → List Entry
  record_unit_update log u [] = log
  record_unit_update log u (f ∷ fs) = log ++ record { action = unit_update; target = u.id } ∷ []

  unfoldable pub updated_response :
      List Entry
      → Result UnitError (UnitRow × List Field) × Service.State U P
      → Response × State U P
  updated_response log (err e, s) =
      (refused (unit_error_status e), record { service = s; audit = log })
  updated_response log (ok (u, fields), s) =
      (with_unit 200 u, record { service = s; audit = record_unit_update log u fields })

  -- handleUpdateUnit
  unfoldable pub handle_update_unit :
      State U P → Option Uuid → Option UnitRequest → User → Response × State U P
  handle_update_unit s none req by = (refused 404, s)
  handle_update_unit s (some id) none by = (refused 400, s)
  handle_update_unit s (some id) (some req) by =
      if req.position
      then (refused 400, s)
      else updated_response s.audit (update units positions s.service id (request_input req) by)

  unfoldable pub patch_response :
      State U P → Uuid → User → Result PatchError (Input → Input) → Response × State U P
  patch_response s id by (err e) = (refused 400, s)
  patch_response s id by (ok edit) =
      updated_response s.audit (patch units positions s.service id edit by)

  -- handlePatchUnit
  unfoldable pub handle_patch_unit :
      State U P → Option Uuid → Option UnitPatchRequest → User → Response × State U P
  handle_patch_unit s none req by = (refused 404, s)
  handle_patch_unit s (some id) none by = (refused 400, s)
  handle_patch_unit s (some id) (some req) by =
      if req.position then (refused 400, s) else patch_response s id by (patch_of req)

  unfoldable pub position_response :
      List Entry → Result UnitError UnitRow × Service.State U P → Response × State U P
  position_response log (err e, s) =
      (refused (unit_error_status e), record { service = s; audit = log })
  position_response log (ok u, s) = (with_unit 200 u, record { service = s; audit = log })

  -- handleSetUnitPosition, at the current time
  unfoldable pub handle_set_unit_position :
      State U P → Option Uuid → Option PositionJson → Time → User → Response × State U P
  handle_set_unit_position s none req now by = (refused 404, s)
  handle_set_unit_position s (some id) none now by = (refused 400, s)
  handle_set_unit_position s (some id) (some req) now by =
      position_response s.audit
        (set_position units positions s.service id (some (position_at req now)) by)

  -- handleClearUnitPosition
  unfoldable pub handle_clear_unit_position : State U P → Option Uuid → User → Response × State U P
  handle_clear_unit_position s none by = (refused 404, s)
  handle_clear_unit_position s (some id) by =
      position_response s.audit (set_position units positions s.service id none by)

  unfoldable pub deleted_response :
      List Entry → Uuid → Result UnitError UnitRow × Service.State U P → Response × State U P
  deleted_response log id (err e, s) =
      (refused (unit_error_status e), record { service = s; audit = log })
  deleted_response log id (ok u, s) = (
    no_content,
    record { service = s; audit = log ++ record { action = unit_delete; target = id } ∷ [] },
  )

  -- handleDeleteUnit
  unfoldable pub handle_delete_unit : State U P → Option Uuid → Response × State U P
  handle_delete_unit s none = (refused 404, s)
  handle_delete_unit s (some id) = deleted_response s.audit id (delete units positions s.service id)
