-- ===== src/Org.antt =====
-- src/amberclaw/org: roles and permissions, and the chart of agents.
pub mod Permissions
pub mod Chart
mod Tests
