-- ===== src/Value.antt =====
-- The value map of backend/app/value, beside its introductions.
pub mod Records
pub mod Proofs
pub mod Commitments
pub mod Forwarding
pub mod Peering
pub mod Discovery
pub mod Engine
pub mod Access
pub mod Documents
