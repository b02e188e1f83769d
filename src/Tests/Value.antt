-- ===== src/Tests/Value.antt =====
-- Concrete nodes of the value map, and runs on them.
pub mod Proofs
pub mod Peers
pub mod Documents
