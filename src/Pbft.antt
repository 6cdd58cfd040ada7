-- ===== src/Pbft.antt =====
-- src/pbft: Practical Byzantine Fault Tolerance, its messages, its clients and its replicas.
pub mod Parameters
pub mod Messages
pub mod Client
pub mod Replica
