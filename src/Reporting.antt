-- ===== src/Reporting.antt =====
-- internal/service/reporting: what every agent is doing.
pub mod State
pub mod Asking
pub mod Collecting
pub mod Deadline
pub mod Tests
