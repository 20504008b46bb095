-- ===== src/Settlement.antt =====
-- internal/store/invoice_allocations.go and account_settlement.go: the account's summary of its
-- allocation, and the lines that explain each invoice's reduction.
pub mod Lines
pub mod Summary
pub mod Explain
pub mod Uses
pub mod Inputs
pub mod Worth
pub mod Rows
pub mod Targets
pub mod Documents
pub mod Posted
pub mod Accounts
mod Tests
