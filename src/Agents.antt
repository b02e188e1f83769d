-- ===== src/Agents.antt =====
-- backend/app/agents: agents that derive records, and the review of what they derive.
pub mod Records
pub mod Queue
pub mod Review
pub mod Steps
pub mod Bounds
pub mod History
pub mod Admission
