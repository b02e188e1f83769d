-- ===== src/Introductions.antt =====
-- backend/app/value/introductions.py: how the two ends of a path meet.
pub mod Records
pub mod Peers
pub mod Paths
pub mod Flow
pub mod Hops
pub mod Replies
pub mod Steps
pub mod Growth
pub mod Discretion
pub mod Commitment
