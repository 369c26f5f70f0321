-- ===== src/RemoteSync.antt =====
-- internal/remotesync: the mirroring of another instance's units. The worker of a remote runs over
-- the units service; what the remote serves is an argument of each pass.
pub mod Logs
pub mod Worker
pub mod Manager
