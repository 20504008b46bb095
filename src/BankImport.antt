-- ===== src/BankImport.antt =====
-- internal/bankimport/bankimport.go: reading incoming credits from CSV, camt and MT940 statements.
pub mod Amount
pub mod Csv
pub mod Camt
pub mod Mt940
pub mod Batches
pub mod Bounds
pub mod Statements
mod Tests
