-- ===== src/Invoices.antt =====
-- internal/store/invoice_documents.go, invoice_partial.go and invoice_assignments.go: the documents of
-- an account, credit notes and reversals.
pub mod Contents
pub mod Documents
pub mod Operations
pub mod Register
pub mod Totals
pub mod Orderly
pub mod Preserved
pub mod Refinement
pub mod Runs
pub mod Credits
pub mod Invariant
pub mod Release
pub mod Freed
pub mod Reversals
pub mod Released
mod Tests
