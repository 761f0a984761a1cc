-- ===== src/Github.antt =====
-- internal/github: pull requests as GitHub's command line answers about them.
pub mod PullRequest
pub mod Decode
pub mod Accounts
pub mod Client
pub mod Reference
pub mod Tests
