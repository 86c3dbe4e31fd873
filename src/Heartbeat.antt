-- ===== src/Heartbeat.antt =====
-- src/amberclaw/heartbeat: the recovery of processes, and the monitor that finds the silent ones.
pub mod Recovery
pub mod Engine
mod Tests
