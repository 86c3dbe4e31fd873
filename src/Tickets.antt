-- ===== src/Tickets.antt =====
-- src/amberclaw/tickets: leases on tickets, issues with their life cycle, the triage queue, attachments and comments.
pub mod Checkout
pub mod Issue
pub mod Inbox
pub mod Attachments
pub mod Comments
