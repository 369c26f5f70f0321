-- ===== src/Server/ApiKeyHandlers.antt =====
-- internal/server/api_key_handlers.go: the administrators' requests on API keys. A path segment, a
-- body or an ID is none where it does not parse; of a response the status and the keys are kept, of
-- an entry of the audit log its action and its target.
use unit_management.Base.{ℕ, Option, none, some, List, [], ◌∷◌, ◌++◌, Result, ok, err}
use unit_management.Text.{Text}
use unit_management.Database.{Table}
use unit_management.Models.{Uuid, User, Session, ApiKey}
use unit_management.Auth.{Tables}
use unit_management.Auth.ApiKeys.{
  ApiKeyError, Jwt, api_key_not_found, api_key_exists, invalid_api_key_name, invalid_api_key_id,
  invalid_api_key_public, of_account, create_api_key, list_api_keys, delete_api_key,
}
use unit_management.Server.Accounts.{user_error_status}

pub data KeyAction : Type 0 where
  api_key_create api_key_delete : KeyAction

pub record KeyEntry : Type 0 where
  pub action : KeyAction
  pub target : Uuid

pub record KeyState (T S A : Type 0) : Type 0 where
  pub tables : Tables T S
  pub keys : A
  pub audit : List KeyEntry

pub record CreateKeyRequest : Type 0 where
  pub id : Option Uuid
  pub name : Text
  pub public_key_pem : Text

-- writeAPIKeyError
unfoldable pub key_error_status : ApiKeyError → ℕ
key_error_status api_key_not_found = 404
key_error_status api_key_exists = 409
key_error_status invalid_api_key_id = 400
key_error_status invalid_api_key_name = 400
key_error_status invalid_api_key_public = 400
key_error_status (of_account e) = user_error_status e

module _ {T S A K : Type 0} (users : Table T User) (sessions : Table S Session)
    (api_keys : Table A ApiKey) (jwt : Jwt K) where
  abbrev keys_listed : Result ApiKeyError (List ApiKey) → ℕ × List ApiKey
  keys_listed (err e) = (key_error_status e, [])
  keys_listed (ok keys) = (200, keys)

  unfoldable pub handle_list_api_keys :
      (List ApiKey → List ApiKey) → KeyState T S A → Option ℕ → ℕ × List ApiKey
  handle_list_api_keys newest_first s none = (404, [])
  handle_list_api_keys newest_first s (some id) =
      keys_listed (list_api_keys users sessions api_keys jwt newest_first s.tables s.keys id)

  abbrev key_created :
      KeyState T S A → Result ApiKeyError (ApiKey × A) → (ℕ × List ApiKey) × KeyState T S A
  key_created s (err e) = ((key_error_status e, []), s)
  key_created s (ok (k, keys)) = (
    (201, k ∷ []),
    record s {
      keys = keys;
      audit = s.audit ++ record { action = api_key_create; target = k.id } ∷ [];
    },
  )

  abbrev create_named :
      KeyState T S A → ℕ → CreateKeyRequest → Option Uuid → (ℕ × List ApiKey) × KeyState T S A
  create_named s user_id req none = ((key_error_status invalid_api_key_id, []), s)
  create_named s user_id req (some id) = key_created s (
      create_api_key users sessions api_keys jwt s.tables s.keys user_id id req.name
        req.public_key_pem)

  unfoldable pub handle_create_api_key :
      KeyState T S A → Option ℕ → Option CreateKeyRequest → (ℕ × List ApiKey) × KeyState T S A
  handle_create_api_key s none req = ((404, []), s)
  handle_create_api_key s (some user_id) none = ((400, []), s)
  handle_create_api_key s (some user_id) (some req) = create_named s user_id req req.id

  abbrev key_deleted : KeyState T S A → Result ApiKeyError (ApiKey × A) → ℕ × KeyState T S A
  key_deleted s (err e) = (key_error_status e, s)
  key_deleted s (ok (k, keys)) = (
    204,
    record s {
      keys = keys;
      audit = s.audit ++ record { action = api_key_delete; target = k.id } ∷ [];
    },
  )

  unfoldable pub handle_delete_api_key :
      KeyState T S A → Option ℕ → Option Uuid → ℕ × KeyState T S A
  handle_delete_api_key s none id = (404, s)
  handle_delete_api_key s (some user_id) none = (key_error_status api_key_not_found, s)
  handle_delete_api_key s (some user_id) (some id) =
      key_deleted s (delete_api_key users sessions api_keys jwt s.keys user_id id)
