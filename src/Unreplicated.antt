-- ===== src/Unreplicated.antt =====
-- src/unreplicated.rs: one server, and clients that retry until it replies.
pub mod Messages
pub mod Client
pub mod Server
pub mod Model
