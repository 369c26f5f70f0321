-- ===== src/Server/Accounts.antt =====
-- internal/server/user_handlers.go: the administrators' requests that create, change and delete
-- accounts. A path segment or a body is none where it does not parse; of a response the status is
-- kept, of an entry of the audit log its action and its target.
pub mod LastAdmin
use unit_management.Base.{
  ℕ, Bool, true, false, not, ◌&&◌, ◌||◌, Option, none, some, List, [], ◌∷◌, ◌++◌, ◌==◌,
  if◌then◌else◌, Result, ok, err,
}
use unit_management.Text.{Text, is_empty}
use unit_management.Database.{Table}
use unit_management.Models.{User, Session, sso}
use unit_management.Auth.{
  AuthError, user_not_found, username_taken, invalid_username, password_too_short,
  password_too_long, invalid_token_ttl, invalid_token_name, token_not_found, Tables, Crypto,
  get_user,
}
use unit_management.Auth.Users.{create_user, update_user, delete_user}

pub data Action : Type 0 where
  user_create user_update user_delete : Action

pub record Entry : Type 0 where
  pub action : Action
  pub target : ℕ

pub record State (T S : Type 0) : Type 0 where
  pub tables : Tables T S
  pub audit : List Entry

pub record CreateRequest : Type 0 where
  pub username : Text
  pub password : Text
  pub is_admin : Bool

pub record UpdateRequest : Type 0 where
  pub is_admin : Bool
  pub password : Text

-- writeUserError
unfoldable pub user_error_status : AuthError → ℕ
user_error_status user_not_found = 404
user_error_status token_not_found = 404
user_error_status username_taken = 409
user_error_status invalid_username = 400
user_error_status password_too_short = 400
user_error_status password_too_long = 400
user_error_status invalid_token_ttl = 400
user_error_status invalid_token_name = 400
user_error_status e = 500

abbrev pub bool_eq : Bool → Bool → Bool
bool_eq true b = b
bool_eq false b = not b

-- Server.adminManaged, given whether the provider manages the role
unfoldable pub admin_managed : Bool → User → Bool
admin_managed manages u = sso u && manages

module _ {T S : Type 0} (users : Table T User) (sessions : Table S Session) (crypto : Crypto) where
  unfoldable pub created_response : State T S → Result AuthError (User × Tables T S) → ℕ × State T S
  created_response s (err e) = (user_error_status e, s)
  created_response s (ok (u, t)) = (
    201,
    record { tables = t; audit = s.audit ++ record { action = user_create; target = u.id } ∷ [] },
  )

  -- handleCreateUser
  unfoldable pub handle_create_user : State T S → Option CreateRequest → ℕ × State T S
  handle_create_user s none = (400, s)
  handle_create_user s (some req) =
      created_response s
        (create_user users sessions crypto s.tables req.username req.password req.is_admin)

  unfoldable pub updated_response :
      State T S → User → UpdateRequest → Result AuthError (User × Tables T S) → ℕ × State T S
  updated_response s target req (err e) = (user_error_status e, s)
  updated_response s target req (ok (u, t)) =
      if not (bool_eq target.is_admin u.is_admin) || not (is_empty req.password)
      then (
        200,
        record {
          tables = t;
          audit = s.audit ++ record { action = user_update; target = u.id } ∷ [];
        },
      )
      else (200, record s { tables = t })

  unfoldable pub update_target :
      State T S → Bool → ℕ → UpdateRequest → Result AuthError User → ℕ × State T S
  update_target s manages id req (err e) = (user_error_status e, s)
  update_target s manages id req (ok target) =
      if admin_managed manages target && not (bool_eq target.is_admin req.is_admin)
      then (400, s)
      else updated_response s target req
          (update_user users sessions crypto s.tables id req.is_admin req.password)

  -- handleUpdateUser, by the user `current`
  unfoldable pub handle_update_user :
      State T S → Bool → User → Option ℕ → Option UpdateRequest → ℕ × State T S
  handle_update_user s manages current none req = (404, s)
  handle_update_user s manages current (some id) none = (400, s)
  handle_update_user s manages current (some id) (some req) =
      if id == current.id && not req.is_admin
      then (400, s)
      else update_target s manages id req (get_user users sessions s.tables id)

  unfoldable pub deleted_response :
      State T S → ℕ → Result AuthError (User × Tables T S) → ℕ × State T S
  deleted_response s id (err e) = (user_error_status e, s)
  deleted_response s id (ok (u, t)) = (
    204,
    record { tables = t; audit = s.audit ++ record { action = user_delete; target = id } ∷ [] },
  )

  -- handleDeleteUser, by the user `current`
  unfoldable pub handle_delete_user : State T S → User → Option ℕ → ℕ × State T S
  handle_delete_user s current none = (404, s)
  handle_delete_user s current (some id) =
      if id == current.id
      then (400, s)
      else deleted_response s id (delete_user users sessions crypto s.tables id)
