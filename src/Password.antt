-- ===== src/Password.antt =====
-- The gate in front of argon2 (src/password.ts).
pub mod Gate
pub mod Busy
mod Tests
