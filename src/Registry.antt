-- ===== src/Registry.antt =====
-- internal/service/registry: the roster of the agents.
pub mod State
pub mod Roster
pub mod Names
pub mod Silence
pub mod Tests
