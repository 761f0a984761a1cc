-- ===== src/Daemon.antt =====
-- internal/daemon: what the daemon does beside serving.
pub mod Reload
pub mod Settling
pub mod Quiet
pub mod Housekeeping
pub mod Tests
