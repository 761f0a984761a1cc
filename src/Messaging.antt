-- ===== src/Messaging.antt =====
-- internal/service/messaging: what agents tell each other.
pub mod Post
pub mod Events
pub mod Inbox
pub mod Receipts
pub mod Sending
pub mod Durability
pub mod Retention
pub mod Mailboxes
pub mod MailboxSteps
pub mod Refinement
pub mod Contract
pub mod Tests
