-- ===== src/Pbft/Replica/Refine.antt =====
-- src/pbft/replica.rs: every handler is a sequence of steps, whatever its outcome.
pub mod Timers
pub mod Ordering
pub mod Prepare
pub mod Commit
pub mod ViewChange
pub mod NewView
pub mod Handle
pub use Handle.{on_event-Reach, after-Reach}
