-- ===== src/Core.antt =====
-- internal/core: the vocabulary that the services and the storage share.
pub mod Time
pub mod Name
pub mod Agent
pub mod Resource
pub mod Lease
pub mod Audit
pub mod Task
pub mod Message
pub mod Credential
pub mod Report
pub mod Watch
pub mod Syntax
