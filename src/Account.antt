-- ===== src/Account.antt =====
-- internal/store/account_lock.go: the payable balance of one neighbor in one year, and the three
-- operations that derive what they post from it.
pub mod Content
pub mod Data
pub mod Balance
pub mod Locks
pub mod Operations
pub mod Effects
pub mod Settlement
pub mod Payout
pub mod Carry
pub mod Samples
mod Tests
