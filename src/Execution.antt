-- ===== src/Execution.antt =====
-- src/execution.rs: the authoritative in-memory registry of executions.
pub mod Domain
pub mod Manager
pub mod Cancel
pub mod Jobs
pub mod Disown
pub mod JobObjects
pub mod Invariant
pub mod Lifecycle
pub mod Reachability
pub mod Fresh
