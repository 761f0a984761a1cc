-- ===== src/Prwatch.antt =====
-- internal/service/prwatch: an eye on pull requests.
pub mod Changes
pub mod State
pub mod Polling
pub mod Watching
pub mod News
pub mod BackOff
pub mod Telling
pub mod Outage
pub mod Accounts
pub mod Tests
