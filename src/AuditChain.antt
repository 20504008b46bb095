-- ===== src/AuditChain.antt =====
-- internal/store/audit_chain.go: the two hash chains over the audit log.
pub mod Data
pub mod Seal
pub mod Verify
pub mod Sound
pub mod Links
pub mod Rounds
pub mod Tamper
mod Tests
