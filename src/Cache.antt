-- ===== src/Cache.antt =====
-- src/amberclaw/cache.
pub mod Resilience
mod Tests
