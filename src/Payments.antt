-- ===== src/Payments.antt =====
-- internal/store/payments.go and payment_plans.go: recording, correcting, deleting and restoring a
-- payment, and the agreed installments.
pub mod Operations
pub mod Record
pub mod Replay
pub mod Effects
pub mod Undo
pub mod Plans
pub mod Planned
mod Tests
