-- ===== src/Build.antt =====
-- Building images (src/build).
pub mod Memory
mod Tests
