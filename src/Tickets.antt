-- ===== src/Tickets.antt =====
-- The life of support tickets and staff chats: app/support_repository.py and app/support_models.py.
pub mod Model
pub mod Table
pub mod Lifecycle
pub mod Reopen
pub mod Open
pub mod Change
pub mod Trace
pub mod Changes
pub mod Openings
pub mod Rows
pub mod Steps
pub mod Sound
pub mod Claims
pub mod Desk
pub mod Authority
pub mod Thread
pub mod Retry
pub mod Orphan
pub mod Phone
pub mod OpenAt
pub mod Told
pub mod Audit
pub mod Present
pub mod AuditKept
pub mod Answers
pub mod Examples
