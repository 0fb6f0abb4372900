-- ===== src/State.antt =====
-- internal/state/store.go: the ownership ledger that records which memberships GroupBridge added,
-- which target every source group is bound to, and how often a membership was seen to be absent.
pub mod Ledger
pub mod Operations
pub mod Opening
pub mod Saving
pub mod Undo
pub mod Requests
pub mod Kept
pub mod Methods
pub mod Durable
pub mod Absences
pub mod Moves
mod Tests
