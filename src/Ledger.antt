-- ===== src/Ledger.antt =====
-- internal/store/ledger.go: the signed postings of an account, and the carry-forward pairs among them.
pub mod Rows
pub mod Operations
pub mod Sums
pub mod Pairs
pub mod Steps
pub mod Invariant
pub mod Undo
mod Tests
