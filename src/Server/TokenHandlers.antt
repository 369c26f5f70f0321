-- ===== src/Server/TokenHandlers.antt =====
-- The requests on API tokens of internal/server/user_handlers.go, and those on the audit log and the
-- settings (audit_handlers.go, settings_handlers.go). A path segment or a body is none where it does
-- not parse; of an entry of the audit log its action and its target are kept.
use unit_management.Base.{
  ℕ, ◌*◌, ◌/◌, Bool, true, false, not, ◌&&◌, ◌||◌, Option, none, some, List, [], ◌∷◌, ◌++◌, ◌==◌,
  ltb, if◌then◌else◌, Result, ok, err, ◌>>=◌, ◌>>◌, guard,
}
use unit_management.Text.{Text}
use unit_management.Text.Url.{UrlCodec}
use unit_management.Database.{Table}
use unit_management.Models.{Time, second, zero_time, User, Session, AuditLog, Setting}
use unit_management.Auth.{AuthError, invalid_token_ttl, Tables, Crypto}
use unit_management.Auth.Sessions.{min_token_ttl, max_token_ttl, create_token, revoke_token}
use unit_management.Audit
use unit_management.Audit.{Filter}
use unit_management.Settings
use unit_management.Settings.{SettingsError, SettingsService, invalid, internal}
use unit_management.Server.Accounts.{user_error_status}
use unit_management.Server.UnitHandlers.{Param, not_given, unreadable, given}

pub data TokenAction : Type 0 where
  token_create token_revoke : TokenAction

pub record TokenEntry : Type 0 where
  pub action : TokenAction
  pub target : ℕ

pub record TokenState (T S : Type 0) : Type 0 where
  pub tables : Tables T S
  pub audit : List TokenEntry

pub record CreateTokenRequest : Type 0 where
  pub name : Text
  pub ttl_seconds : ℕ

module _ {T S : Type 0} (users : Table T User) (sessions : Table S Session) (crypto : Crypto) where
  abbrev token_created :
      TokenState T S
      → Result AuthError ((Text × Session) × Tables T S)
      → (ℕ × Option (Text × Session)) × TokenState T S
  token_created s (err e) = ((user_error_status e, none), s)
  token_created s (ok ((token, session), t)) = (
    (201, some (token, session)),
    record {
      tables = t;
      audit = s.audit ++ record { action = token_create; target = session.id } ∷ [];
    },
  )

  -- handleCreateToken; a lifetime below 0 is refused as 0 is.
  unfoldable pub handle_create_token :
      TokenState T S
      → Option ℕ
      → Option CreateTokenRequest
      → Option Text
      → Time
      → (ℕ × Option (Text × Session)) × TokenState T S
  handle_create_token s none req session_id now = ((404, none), s)
  handle_create_token s (some id) none session_id now = ((400, none), s)
  handle_create_token s (some id) (some req) session_id now =
      if ltb req.ttl_seconds (min_token_ttl / second)
        || ltb (max_token_ttl / second) req.ttl_seconds
      then ((user_error_status invalid_token_ttl, none), s)
      else token_created s (
          create_token users sessions crypto s.tables id req.name (req.ttl_seconds * second)
            session_id now)

  abbrev token_revoked :
      TokenState T S → Result AuthError (Session × Tables T S) → ℕ × TokenState T S
  token_revoked s (err e) = (user_error_status e, s)
  token_revoked s (ok (session, t)) = (
    204,
    record {
      tables = t;
      audit = s.audit ++ record { action = token_revoke; target = session.id } ∷ [];
    },
  )

  -- handleRevokeToken; an ID of 0 is none.
  unfoldable pub handle_revoke_token : TokenState T S → Option ℕ → Option ℕ → ℕ × TokenState T S
  handle_revoke_token s none token_id = (404, s)
  handle_revoke_token s (some id) none = (404, s)
  handle_revoke_token s (some id) (some token_id) =
      token_revoked s (revoke_token users sessions crypto s.tables id token_id)

-- The query of the audit log: the texts as they are, and what the other parameters parse to.
pub record AuditQuery : Type 0 where
  pub action : Text
  pub target_type : Text
  pub target_id : Text
  pub limit : Param
  pub before : Param
  pub actor : Param
  pub since : Param
  pub to : Param

pub data AuditQueryError : Type 0 where
  bad_limit bad_before bad_actor bad_since bad_to to_before_since : AuditQueryError

unfoldable pub audit_limit : Param → Result AuditQueryError ℕ
audit_limit not_given = ok 0
audit_limit unreadable = err bad_limit
audit_limit (given n) = if ltb n 1 || ltb Audit.max_limit n then err bad_limit else ok n

unfoldable pub positive_param : AuditQueryError → Param → Result AuditQueryError ℕ
positive_param e not_given = ok 0
positive_param e unreadable = err e
positive_param e (given n) = if n == 0 then err e else ok n

unfoldable pub time_param : AuditQueryError → Param → Result AuditQueryError Time
time_param e not_given = ok zero_time
time_param e unreadable = err e
time_param e (given t) = ok t

-- parseAuditFilter
unfoldable pub parse_audit_filter : AuditQuery → Result AuditQueryError Filter
parse_audit_filter q = do
  limit ← audit_limit q.limit
  before ← positive_param bad_before q.before
  actor ← positive_param bad_actor q.actor
  since ← time_param bad_since q.since
  to ← time_param bad_to q.to
  guard (not (not (since == zero_time) && not (to == zero_time) && ltb to since)) to_before_since
  ok (record {
    limit = limit;
    before_id = before;
    action = q.action;
    actor_id = actor;
    target_type = q.target_type;
    target_id = q.target_id;
    since = since;
    to = to;
  })

module _ {T : Type 0} (entries : Table T AuditLog) where
  abbrev entries_listed : Option (List AuditLog) → ℕ × List AuditLog
  entries_listed none = (500, [])
  entries_listed (some rows) = (200, rows)

  abbrev filtered : T → Result AuditQueryError Filter → ℕ × List AuditLog
  filtered t (err e) = (400, [])
  filtered t (ok f) = entries_listed (Audit.list entries t f)

  unfoldable pub handle_list_audit_log : T → AuditQuery → ℕ × List AuditLog
  handle_list_audit_log t q = filtered t (parse_audit_filter q)

module _ {T : Type 0} (table : Table T Setting) (urls : UrlCodec) where
  abbrev settings_error_status : SettingsError → ℕ
  settings_error_status invalid = 400
  settings_error_status internal = 500

  -- The answer, and whether the audit log records the change.
  abbrev settings_updated :
      SettingsService T
      → Result SettingsError (List Text × SettingsService T)
      → (ℕ × Bool) × SettingsService T
  settings_updated s (err e) = ((settings_error_status e, false), s)
  settings_updated s (ok ([], s')) = ((200, false), s')
  settings_updated s (ok (field ∷ fields, s')) = ((200, true), s')

  unfoldable pub handle_update_settings :
      SettingsService T → Option Settings.Settings → (ℕ × Bool) × SettingsService T
  handle_update_settings s none = ((400, false), s)
  handle_update_settings s (some input) = settings_updated s (Settings.update table urls s input)
