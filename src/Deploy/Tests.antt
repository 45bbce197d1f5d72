-- ===== src/Deploy/Tests.antt =====
-- Tests of the health gate (src/jobs/health-gate.ts): a container that answers in the third second.
use musdash.Prelude.{
  ℕ, suc, ◌+◌, ◌*◌, ◌≡◌, refl, true, none, some, if◌then◌else◌, ltb, arith, is_some,
}
use musdash.Deploy.HealthGate.{
  ContainerState, Round, no_healthcheck, health_gate, poll, http_round, http_state,
  unless_restarted, passed,
}
use musdash.Deploy.HealthGate.Ends.{Earned, health_gate_ends, health_gate-Earned}

abbrev up : ContainerState
up = record {
  running = true;
  restart_count = 0;
  exit_code = none;
  health = no_healthcheck;
  ip_address = some "10.0.0.2";
}

abbrev seconds : ℕ → Round
seconds i = record {
  now = 5000 + 1000 * i;
  state = some up;
  response = if ltb i 3 then none else some 200;
}

health_gate_ends_example : is_some (health_gate true 65000 0 seconds (suc 61) none none) ≡ true
health_gate_ends_example =
    health_gate_ends seconds (λ i. omega arith) true 65000 0 61 none none (omega arith)

gate_passes : health_gate true 65000 0 seconds 10 none none ≡ some passed
unfolding health_gate poll http_round http_state unless_restarted
gate_passes = refl

health_gate-Earned_example : Earned true 65000 0 seconds none
health_gate-Earned_example = health_gate-Earned true 65000 0 10 seconds none none gate_passes
