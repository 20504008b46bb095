-- ===== src/Allocation.antt =====
-- internal/store/invoice_allocation_plan.go: offsets and payments of one account are distributed
-- over its invoices.
pub mod Data
pub mod Order
pub mod Reversal
pub mod Plan
pub mod Sorting
pub mod Sums
pub mod Payments
pub mod Claims
pub mod Offsets
pub mod NetPayments
pub mod Conservation
pub mod Exhaustion
mod Tests
