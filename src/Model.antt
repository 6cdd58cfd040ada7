-- ===== src/Model.antt =====
-- src/model: the state that the model checkers explore, and the breadth-first search.
pub mod Schedule
pub mod Network
pub mod Simulate
pub mod Search
