-- ===== src/Governance.antt =====
-- src/amberclaw/governance: policies, the approval workflow, compensating actions, the audit
-- log, and the board with its tickets.
pub mod Workflow
pub mod Policies
pub mod Rollback
pub mod Audit
pub mod Tickets
pub mod Board
mod Tests
