-- ===== src/Reconcile.antt =====
-- internal/reconcile/reconciler.go: the rules' view of groups and paths, the plan of jobs, and the
-- run that applies it.
pub mod Paths
pub mod Confined
pub mod Secrets
pub mod Rules
pub mod Plan
pub mod Established
pub mod Orderly
pub mod Planned
pub mod Retired
pub mod Run
pub mod Cycle
pub mod Batch
pub mod Lasting
pub mod Resolution
pub mod Guarded
pub mod Throttled
pub mod Tombstones
mod Tests
