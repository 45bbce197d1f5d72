-- ===== src/Volumes.antt =====
-- The volumes of stacks (src/volumes).
pub mod Select
pub mod Owners
pub mod Sizes
pub mod Shared
mod Tests
