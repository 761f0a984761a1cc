-- ===== src/Leasing.antt =====
-- internal/service/leasing: the service that arbitrates resources. The children hold its operations
-- (Waiters, State, Resources, Grant, Acquire, Holding, Reclaim) and what is proved of them.
pub mod Waiters
pub mod State
pub mod Resources
pub mod Grant
pub mod Acquire
pub mod Holding
pub mod Reclaim
pub mod Events
pub mod Steps
pub mod Transactions
pub mod EventRelations
pub mod GrantCases
pub mod Capacity
pub mod Finality
pub mod Once
pub mod Drained
pub mod Cleared
pub mod Vacancy
pub mod Holders
pub mod HandBack
pub mod Example
pub mod Tests
pub mod AcquireTests
pub mod OperationTests
pub mod Fairness
pub mod Wakeups
