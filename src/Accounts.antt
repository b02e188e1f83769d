-- ===== src/Accounts.antt =====
-- People, their roles and what is recorded about them: backend/app/core/auth.py and backend/app/services.
pub mod Roles
pub mod Ledgers
pub mod Corrections
pub mod Consent
pub mod Appeals
pub mod Handlers
