-- ===== src/Lib.antt =====
-- Verification of the unit management server (the Go program of this repository): the units with
-- their position history and event stream, the mirroring of other instances' units, accounts with
-- their sessions, groups, API keys and single sign-on, the audit log, the settings, and the HTTP
-- handlers around them.
--
-- The parts and their files:
--
-- - Base: names shared by all files; Base/Fallible has results and the bind of do blocks,
--   Base/Lists and Base/LastN the list operations, Base/Assoc Go's maps as lists of entries,
--   Base/Among the elements of a list. Text: Go strings with the functions of strings and utf8 that
--   the server calls; Text/Order their order, slices.Sort and slices.Compact, Text/Url the parts of
--   a URL, Text/Decimal strconv's decimal numbers. Float: float64 as sign and magnitude in units of
--   the smallest subnormal, with IEEE comparisons. Models: the rows (internal/models/models.go).
-- - Database: the statements that the services run on a table (GORM over PostgreSQL), as a record
--   that the services take as a parameter, and the laws of SELECT, INSERT, UPDATE and DELETE as
--   `IsTable`, of a unique index as `IsUnique` and of ORDER BY as `IsOrder`. A statement may fail
--   at any time. Database/Memory is a table that meets the laws.
-- - Units/Input: Input, apply, Changed, samePosition, inputOf and the normalizations of
--   internal/units/units.go. Units/Service: Get, Create, Update, Patch, SetPosition and Delete.
--   Units/History: History and deleteHistoryBefore. Units/Sync: UpsertSynced, DeleteSynced and
--   SyncedIDs (internal/units/sync.go). Units/Broker: internal/units/events.go. Units/Invariant:
--   any sequence of these calls.
-- - RemoteSync/Worker: syncOnce, fullSync, apply and requestSync (internal/remotesync/worker.go)
--   and the units of client.go, over an interface `UnitStore` with the promises `IsUnitStore`
--   (Worker/Store), which the units service fills (Worker/Service). RemoteSync/Logs:
--   internal/remotesync/logs.go. RemoteSync/Manager: the table of remotes and the set of workers,
--   with reconcile, Create, Update, Delete, Trigger, setStatus and stopAll
--   (internal/remotesync/manager.go).
-- - Auth/Users, Auth/Sessions: internal/auth/users.go and auth.go. Auth/Signer: the tokens of
--   sessions (internal/auth/jwt.go). Auth/Oidc: Exchange and the groups of an identity;
--   Auth/Groups: syncOIDCGroups; Auth/Provisioning: userForOIDCIdentity and LoginOIDC
--   (internal/auth/oidc.go). Auth/AccessTokens: internal/auth/access_token.go with its cache.
--   Auth/ApiKeys: internal/auth/api_keys.go. Auth/Middleware: internal/auth/middleware.go and
--   UserForToken of auth.go, which tries an access token, an API key and a session in this order.
-- - Audit: internal/audit/audit.go. Settings: internal/settings/settings.go.
-- - Server/RateLimit: internal/server/ratelimit.go. Server/Login: handleLogin of auth_handlers.go.
--   Server/Accounts: user_handlers.go. Server/UnitHandlers: unit_handlers.go. Server/Proxy:
--   proxy.go. Server/SyncHandlers: sync_handlers.go. Server/ApiKeyHandlers: api_key_handlers.go.
--   Server/OidcHandlers: oidc_handlers.go. Server/TokenHandlers: the tokens of user_handlers.go,
--   the listing of audit_handlers.go and the update of settings_handlers.go.
-- - Examples: the theorems at concrete inputs.
--
-- How state is modelled: a service's state is the tables and the broker; an operation returns its
-- result with the new state. A transaction works on the tables and gives new ones only if it
-- succeeds, while what was committed before a later failure stays. The events go to the broker
-- inside the operation. Concurrent calls are sequences of calls: the row locks of Patch and
-- UpsertSynced and the mutexes of the broker, the limiter, the logs, the worker, the manager, the
-- settings and the cache of access tokens serialize them. Deleting a unit deletes its history and
-- deleting an account its sessions, as the schema's ON DELETE CASCADE does; the rows of its
-- memberships and API keys, which go with it too, are not followed there.
--
-- Parameters, for code outside the repository: the tables, bcrypt, go-jose with the keys (the
-- signature, the encoding and the checks of a JWT's times), the parsers of UUIDs and PEM, the
-- OpenID Connect provider with the verification of its tokens, SHA-256, url.Parse, the parser of IP
-- addresses, and the readings of clocks and random sources. A theorem that relies on one names what
-- it relies on as a hypothesis.
--
-- Numbers: identifiers, times (nanoseconds since a fixed instant) and counters are natural numbers;
-- no arithmetic of the modelled code comes near the bounds of int64. Loops are structural recursion
-- on lists, so they need no fuel, but for the loop over the attempts to insert a new account at a
-- first sign-in, which takes fuel 3, as many as the attempts that the source makes.
--
-- Not modelled: times keep their full precision when they are stored, where PostgreSQL rounds to
-- microseconds; pointer identity in equalPtr, which only matters for NaN, which `apply` rejects;
-- the texts of errors and log lines; UpsertSynced's Boolean beside an error, which its caller does
-- not read. Concurrent first sign-ins of one person are modelled one after the other. Left out are
-- the reconnect loop of a worker with its HTTP client, the tickers, the discovery of the OIDC
-- provider and the URL of its sign-in page, the signing of API keys' tokens, the plain queries
-- ListUsers, ListTokens and ListGroups, the WebSocket writer, CORS, headers and routing,
-- configuration, the database's setup and the web frontend.
pub mod Audit
pub mod Auth
pub mod Base
pub mod Database
pub mod Examples
pub mod Float
pub mod Models
pub mod RemoteSync
pub mod Server
pub mod Settings
pub mod Text
pub mod Units
