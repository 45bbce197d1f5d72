-- ===== src/Logs.antt =====
-- Container logs in memory (src/logs).
pub mod Ring
pub mod Buffers
pub mod Deploys
mod Tests
