-- ===== src/Tests.antt =====
-- The theorems at concrete inputs.
mod Bridge
mod Introductions
mod Agents
mod Value
mod Accounts
