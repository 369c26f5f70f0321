-- ===== src/Server/SyncHandlers.antt =====
-- internal/server/sync_handlers.go: the administrators' requests on sync remotes. A path segment or a
-- body is none where it does not parse; of a response the status and the content are kept, of an
-- entry of the audit log its action and its target.
use unit_management.Base.{ℕ, Option, none, some, List, [], ◌∷◌, ◌++◌, Result, ok, err}
use unit_management.Text.{Text}
use unit_management.Text.Url.{UrlCodec}
use unit_management.Database.{Table}
use unit_management.Models.{Uuid, Time, SyncRemote}
use unit_management.RemoteSync.Logs.{LogEntry, logs}
use unit_management.RemoteSync.Manager.{
  RemoteError, RemoteInput, Manager, not_found, not_running, invalid_name, invalid_base_url,
  invalid_poll_interval, internal, list, get, create, update, delete, trigger,
}

pub data SyncAction : Type 0 where
  sync_remote_create sync_remote_update sync_remote_delete sync_remote_trigger : SyncAction

pub record SyncEntry : Type 0 where
  pub action : SyncAction
  pub target : Uuid

pub record SyncState (T : Type 0) : Type 0 where
  pub manager : Manager T
  pub audit : List SyncEntry

-- What a response holds beside its status.
pub data SyncBody : Type 0 where
  nothing : SyncBody
  remotes_body : List SyncRemote → SyncBody
  remote_body : SyncRemote → SyncBody
  logs_body : List LogEntry → SyncBody
  identity_body : Uuid → Text → SyncBody

-- writeSyncError
unfoldable pub sync_error_status : RemoteError → ℕ
sync_error_status not_found = 404
sync_error_status not_running = 409
sync_error_status invalid_name = 400
sync_error_status invalid_base_url = 400
sync_error_status invalid_poll_interval = 400
sync_error_status internal = 500

-- handleSyncIdentity, with the server's public key, if it can be written
unfoldable pub handle_sync_identity : Uuid → Option Text → ℕ × SyncBody
handle_sync_identity server_uuid none = (500, nothing)
handle_sync_identity server_uuid (some pem) = (200, identity_body server_uuid pem)

module _ {T : Type 0} (remotes : Table T SyncRemote) (by_name : List SyncRemote → List SyncRemote)
    (urls : UrlCodec) where
  abbrev listed : Result RemoteError (List SyncRemote) → ℕ × SyncBody
  listed (err e) = (sync_error_status e, nothing)
  listed (ok rs) = (200, remotes_body rs)

  unfoldable pub handle_list_sync_remotes : SyncState T → ℕ × SyncBody
  handle_list_sync_remotes s = listed (list remotes by_name urls s.manager)

  abbrev got : Result RemoteError SyncRemote → ℕ × SyncBody
  got (err e) = (sync_error_status e, nothing)
  got (ok r) = (200, remote_body r)

  unfoldable pub handle_get_sync_remote : SyncState T → Option Uuid → ℕ × SyncBody
  handle_get_sync_remote s none = (404, nothing)
  handle_get_sync_remote s (some id) = got (get remotes by_name urls s.manager id)

  -- The answer to a change, with its entry of the audit log.
  unfoldable pub sync_changed :
      SyncState T
      → ℕ
      → SyncAction
      → Result RemoteError (SyncRemote × Manager T)
      → (ℕ × SyncBody) × SyncState T
  sync_changed s status action (err e) = ((sync_error_status e, nothing), s)
  sync_changed s status action (ok (r, m)) = (
    (status, remote_body r),
    record { manager = m; audit = s.audit ++ record { action = action; target = r.id } ∷ [] },
  )

  unfoldable pub handle_create_sync_remote :
      SyncState T → Uuid → Option RemoteInput → (ℕ × SyncBody) × SyncState T
  handle_create_sync_remote s id none = ((400, nothing), s)
  handle_create_sync_remote s id (some input) =
      sync_changed s 201 sync_remote_create (create remotes by_name urls s.manager id input)

  unfoldable pub handle_update_sync_remote :
      SyncState T → Option Uuid → Option RemoteInput → (ℕ × SyncBody) × SyncState T
  handle_update_sync_remote s none input = ((404, nothing), s)
  handle_update_sync_remote s (some id) none = ((400, nothing), s)
  handle_update_sync_remote s (some id) (some input) =
      sync_changed s 200 sync_remote_update (update remotes by_name urls s.manager id input)

  abbrev without_body : (ℕ × SyncBody) × SyncState T → (ℕ × SyncBody) × SyncState T
  without_body ((status, body), s) = ((status, nothing), s)

  unfoldable pub handle_delete_sync_remote :
      SyncState T → Option Uuid → (ℕ × SyncBody) × SyncState T
  handle_delete_sync_remote s none = ((404, nothing), s)
  handle_delete_sync_remote s (some id) =
      without_body
        (sync_changed s 204 sync_remote_delete (delete remotes by_name urls s.manager id))

  abbrev sync_triggered :
      SyncState T → Uuid → Result RemoteError (Manager T) → (ℕ × SyncBody) × SyncState T
  sync_triggered s id (err e) = ((sync_error_status e, nothing), s)
  sync_triggered s id (ok m) = (
    (202, nothing),
    record {
      manager = m;
      audit = s.audit ++ record { action = sync_remote_trigger; target = id } ∷ [];
    },
  )

  unfoldable pub handle_trigger_sync_remote :
      SyncState T → Option Uuid → Time → (ℕ × SyncBody) × SyncState T
  handle_trigger_sync_remote s none now = ((404, nothing), s)
  handle_trigger_sync_remote s (some id) now =
      sync_triggered s id (trigger remotes by_name urls s.manager id now)

  abbrev logs_of : SyncState T → Uuid → Result RemoteError SyncRemote → ℕ × SyncBody
  logs_of s id (err e) = (sync_error_status e, nothing)
  logs_of s id (ok r) = (200, logs_body (logs s.manager.logs id))

  unfoldable pub handle_sync_remote_logs : SyncState T → Option Uuid → ℕ × SyncBody
  handle_sync_remote_logs s none = (404, nothing)
  handle_sync_remote_logs s (some id) = logs_of s id (get remotes by_name urls s.manager id)
