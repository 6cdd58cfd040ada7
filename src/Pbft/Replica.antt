-- ===== src/Pbft/Replica.antt =====
-- src/pbft/replica.rs, a replica: its state, one module for each stage of the protocol, the work of
-- its crypto worker, and the dispatch of its events. Proofs stand in the modules named for them.
pub mod State
pub mod Ordering
pub mod Prepare
pub mod Commit
pub mod ViewChange
pub mod NewView
pub mod Event
pub mod Work
pub mod Handle
pub mod Step
pub mod Refine
pub mod Invariant
pub mod Progress
