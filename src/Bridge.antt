-- ===== src/Bridge.antt =====
-- The package bridge: from containers to registered services.
pub mod Types
pub mod Tags
pub mod Metadata
pub mod Env
pub mod Port
pub mod Create
pub mod World
pub mod Ensures
pub mod Tracking
pub mod Add
pub mod Remove
pub mod ServiceId
pub mod Sync
pub mod Threads
