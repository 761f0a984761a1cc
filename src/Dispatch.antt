-- ===== src/Dispatch.antt =====
-- internal/service/dispatch: the service through which an agent asks a shared worker for work.
pub mod Workdir
pub mod State
pub mod Work
pub mod Outcomes
pub mod Steps
pub mod Roots
pub mod Claims
pub mod Lives
pub mod Abandoned
pub mod Withdrawals
pub mod Tests
