-- ===== src/Compose.antt =====
-- The Compose pipeline (src/compose).
pub mod Json
pub mod Refusal
pub mod Keys
pub mod Mounts
pub mod Memory
pub mod Service
pub mod Validate
pub mod Transform
pub mod Contract
pub mod Placeholders
pub mod Environment
mod Tests
mod NameTests
