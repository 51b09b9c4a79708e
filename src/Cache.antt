-- ===== src/Cache.antt =====
-- The per-process client cache of lib.rs.
pub mod Entry
pub mod Evict
pub mod Lru
pub mod Tests
