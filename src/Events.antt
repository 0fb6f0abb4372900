-- ===== src/Events.antt =====
-- internal/reconcile/events.go and trigger.go: the queue of event hints, the index of private
-- routing keys, and the wait for a burst to settle.
pub mod Queue
pub mod Bounded
pub mod Sound
pub mod Covered
pub mod Routes
pub mod Linked
pub mod Indexed
pub mod Burst
mod Tests
