-- ===== src/Login.antt =====
-- internal/auth/auth.go and internal/totp/totp.go: the password policy and the one-time codes.
pub mod Password
pub mod Totp
mod Tests
