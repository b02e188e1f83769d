-- ===== src/Bridge.antt =====
-- The bridge wallet (backend/app/bridge): holdings, pledges, project funding, supplier invoices and
-- payments by agents.
pub mod Records
pub mod Rails
pub mod Wallet
pub mod Pledges
pub mod Payments
pub mod Mandates
pub mod Suppliers
pub mod Funding
pub mod Handlers
pub mod Views
