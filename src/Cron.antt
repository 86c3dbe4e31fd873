-- ===== src/Cron.antt =====
-- src/amberclaw/cron: schedules, the stored jobs, and the service that runs them.
pub mod Types
pub mod Store
pub mod Service
mod Tests
