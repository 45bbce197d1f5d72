-- ===== src/Reconcile.antt =====
-- The reconciler (src/reconciler.ts).
pub mod Plan
pub mod Sidecars
pub mod Pass
mod Tests
mod PassTests
