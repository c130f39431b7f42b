-- ===== src/Graph.antt =====
-- src/graph.rs: the lifecycle runner.
pub mod Runner
pub mod Operations
pub mod Commit
pub mod Cycle
pub mod Step
pub mod Refines
pub mod Target
pub mod Rollback
pub mod Forest
pub mod Soundness
pub mod Ancestry
pub mod Bounds
pub mod Tasks
pub mod Approval
pub mod Score
pub mod Restore
pub mod Governance
