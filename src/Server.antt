-- ===== src/Server.antt =====
-- internal/server: the HTTP side.
pub mod RateLimit
pub mod Proxy
pub mod Login
pub mod Accounts
pub mod UnitHandlers
pub mod SyncHandlers
pub mod ApiKeyHandlers
pub mod OidcHandlers
pub mod TokenHandlers
