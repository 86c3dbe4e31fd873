-- ===== src/Security.antt =====
-- src/amberclaw/security: attribute-based access, the approval of tool calls, tokens,
-- API keys and emergency elevations.
pub mod Abac
pub mod Approval
pub mod Tokens
pub mod ApiKeys
pub mod BreakGlass
mod Tests
