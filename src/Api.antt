-- ===== src/Api.antt =====
-- internal/api: the methods that agents call, over the services.
pub mod State
pub mod Views
pub mod Leases
pub mod Admin
pub mod Agents
pub mod Messages
pub mod Tasks
pub mod Reports
pub mod WatchViews
pub mod Watches
pub mod Reloading
pub mod Power
pub mod Evicting
pub mod Tests
