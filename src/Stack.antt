-- ===== src/Stack.antt =====
-- The pure decisions behind a stack (src/jobs/compose-plan.ts).
pub mod Routing
pub mod Hosts
pub mod Gate
mod Tests
