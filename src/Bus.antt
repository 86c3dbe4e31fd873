-- ===== src/Bus.antt =====
-- src/amberclaw/bus.
pub mod Queue
mod Tests
