-- ===== src/Units.antt =====
-- internal/units: the units, their validation, their position history and their event stream.
pub mod Input
pub mod Broker
pub mod Service
pub mod History
pub mod Sync
pub mod Invariant
