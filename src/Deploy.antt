-- ===== src/Deploy.antt =====
-- The deploy jobs (src/jobs), as far as they are modelled: the gate that a new container must pass.
pub mod HealthGate
mod Tests
