-- ===== src/Client.antt =====
-- The PHP class `Client` of lib.rs over the per-process cache.
pub mod World
pub mod Guards
pub mod Connect
pub mod Close
pub mod Query
pub mod Cached
pub mod Invariant
pub mod Connects
pub mod Connected
pub mod Sharing
pub mod Closes
pub mod Closed
pub mod Queries
pub mod Shutdown
pub mod Steps
pub mod InUse
pub mod Tests
