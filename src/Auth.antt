-- ===== src/Auth.antt =====
-- Signing in (src/auth.ts), as far as it is modelled: the sessions table.
pub mod Sessions
mod Tests
