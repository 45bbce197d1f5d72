-- ===== src/Deploy/HealthGate/Ends.antt =====
-- The gate of src/jobs/health-gate.ts ends, and what it has seen when it passes.
use musdash.Prelude.{
  ℕ, suc, zero, ◌+◌, ◌*◌, ◌≤◌, ◌<◌, ◌≡◌, refl, ap, ◌∙◌, Bool, true, false, ◌&&◌, Option, none, some,
  arith, ltb, lt→ltb, is_some, ◌⊎◌, inl, inr, Bool-cases, Option-cases,
}
use mathlib.Core.Bool.{false≢true}
use mathlib.Core.Option.{none-ne-some}
use musdash.Deploy.HealthGate.{
  Health, healthy, ContainerState, Round, GateEnd, passed, timed_out, is_ok, unless_restarted,
  http_state, http_round, by_health, docker_state, docker_round, or_else, poll, uptime_state,
  has_healthcheck, without_path, health_gate,
}

-- A round that comes after the deadline ends the loop.
abbrev Stops : ℕ → (Round → Option GateEnd) → Type 0
Stops deadline round = (r : Round) → deadline < r.now → round r ≡ some timed_out

http_round-Stops : (deadline baseline : ℕ) → Stops deadline (http_round deadline baseline)
unfolding http_round
http_round-Stops deadline baseline r h = rw (lt→ltb deadline r.now h) refl

docker_round-Stops : (deadline baseline : ℕ) → Stops deadline (docker_round deadline baseline)
unfolding docker_round
docker_round-Stops deadline baseline r h = rw (lt→ltb deadline r.now h) refl

poll-ended :
    (round : Round → Option GateEnd) (rounds : ℕ → Round) (n i : ℕ) (end : GateEnd)
    → round (rounds i) ≡ some end
    → is_some (poll round rounds (suc n) i) ≡ true
unfolding poll
poll-ended round rounds n i end e = ap (λ o. is_some (or_else o (poll round rounds n (i + 1)))) e

module _ (rounds : ℕ → Round) (pause : (i : ℕ) → (rounds i).now + 1000 ≤ (rounds (i + 1)).now) where
  poll_ends :
      (deadline : ℕ) (round : Round → Option GateEnd)
      → Stops deadline round
      → (n i : ℕ) → deadline < (rounds i).now + 1000 * n
      → is_some (poll round rounds (suc n) i) ≡ true
  unfolding poll
  poll_ends deadline round stops zero i h =
      poll-ended round rounds zero i timed_out (stops (rounds i) (omega (arith, h)))
  poll_ends deadline round stops (suc n) i h = elim (Option-cases (round (rounds i))) [
    | inr (end, e) ↦ poll-ended round rounds (suc n) i end e
    | inl e ↦
        ap (λ o. is_some (or_else o (poll round rounds (suc n) (i + 1)))) e
        ∙ poll_ends deadline round stops n (i + 1) (omega (arith, h, pause i))
  ]

  -- When the clock goes on by a second at least between two rounds, the gate ends after as many rounds
  -- as seconds fit before the deadline, and one more, whatever the container answers.
  pub health_gate_ends :
      (checks_path : Bool) (deadline baseline n : ℕ) (initial final : Option ContainerState)
      → deadline < (rounds 0).now + 1000 * n
      → is_some (health_gate checks_path deadline baseline rounds (suc n) initial final) ≡ true
  unfolding health_gate without_path
  health_gate_ends true deadline baseline n initial final h =
      poll_ends deadline (http_round deadline baseline) (http_round-Stops deadline baseline) n 0 h
  health_gate_ends false deadline baseline n none final h = refl
  health_gate_ends false deadline baseline n (some s) final h =
      elim (Bool-cases (has_healthcheck s.health)) [
        | inl e ↦ rw e (
            poll_ends deadline (docker_round deadline baseline)
              (docker_round-Stops deadline baseline) n 0 h)
        | inr e ↦ rw e refl
      ]

-- A round in which the container was seen up in time: not restarted since the deploy began, running,
-- and its health path answered well.
abbrev pub PathAnswered : ℕ → ℕ → Round → Type 0
PathAnswered deadline baseline r =
    (s : ContainerState) × (r.state ≡ some s)
    × (r.now ≤ deadline)
    × (s.restart_count ≤ baseline)
    × (s.running ≡ true)
    × (is_ok r.response ≡ true)

-- The same for Docker's own health.
abbrev pub DockerHealthy : ℕ → ℕ → Round → Type 0
DockerHealthy deadline baseline r =
    (s : ContainerState) × (r.state ≡ some s)
    × (r.now ≤ deadline)
    × (s.restart_count ≤ baseline)
    × (s.health ≡ healthy)

poll-passed :
    (round : Round → Option GateEnd) (rounds : ℕ → Round) (n i : ℕ)
    → poll round rounds n i ≡ some passed
    → (k : ℕ) × (round (rounds k) ≡ some passed)
unfolding poll
poll-passed round rounds zero i h = absurd (none-ne-some _ h)
poll-passed round rounds (suc n) i h = elim (Option-cases (round (rounds i))) [
  | inr (end, e) ↦ (i, e ∙ (rw e at h))
  | inl e ↦ poll-passed round rounds n (i + 1) (rw e at h)
]

abbrev is_pass : Option GateEnd → Bool
is_pass (some passed) = true
is_pass _ = false

and_last : (a b : Bool) → (a && b) ≡ true → b ≡ true
and_last true b h = h
and_last false b h = absurd (false≢true h)

restarts_within : (a b : ℕ) → ltb a b ≡ false → b ≤ a
restarts_within a b h = ground arith

state_answered :
    (baseline : ℕ) (response : Option ℕ) (s : ContainerState)
    → is_pass (http_state baseline response (some s)) ≡ true
    → (s.restart_count ≤ baseline) × (s.running ≡ true) × (is_ok response ≡ true)
unfolding http_state unless_restarted
state_answered baseline response s h = elim (Bool-cases (ltb baseline s.restart_count)) [
  | inl e ↦ absurd (false≢true (rw e at h))
  | inr e ↦ elim (Bool-cases s.running) [
    | inr f ↦ absurd (false≢true (rw (e, f) at h))
    | inl f ↦ elim (Bool-cases (is_some s.ip_address && is_ok response)) [
      | inr g ↦ absurd (false≢true (rw (e, f, g) at h))
      | inl g ↦ (
        restarts_within baseline s.restart_count e,
        f,
        and_last (is_some s.ip_address) (is_ok response) g,
      )
    ]
  ]
]

health_passed :
    (running : Bool) (code : Option ℕ) (health : Health)
    → is_pass (by_health running code health) ≡ true
    → health ≡ healthy
health_passed running code healthy h = refl
health_passed running code Health.unhealthy h = absurd (false≢true h)
health_passed true code Health.starting h = absurd (false≢true h)
health_passed false code Health.starting h = absurd (false≢true h)
health_passed true code Health.no_healthcheck h = absurd (false≢true h)
health_passed false code Health.no_healthcheck h = absurd (false≢true h)

state_healthy :
    (baseline : ℕ) (s : ContainerState)
    → is_pass (docker_state baseline (some s)) ≡ true
    → (s.restart_count ≤ baseline) × (s.health ≡ healthy)
unfolding docker_state unless_restarted
state_healthy baseline s h = elim (Bool-cases (ltb baseline s.restart_count)) [
  | inl e ↦ absurd (false≢true (rw e at h))
  | inr e ↦ (
    restarts_within baseline s.restart_count e,
    health_passed s.running s.exit_code s.health (rw e at h),
  )
]

http_state-answered :
    (deadline baseline : ℕ) (r : Round) (o : Option ContainerState)
    → r.state ≡ o
    → r.now ≤ deadline
    → is_pass (http_state baseline r.response o) ≡ true
    → PathAnswered deadline baseline r
unfolding http_state
http_state-answered deadline baseline r none eo t h = absurd (false≢true h)
http_state-answered deadline baseline r (some s) eo t h =
    let good = state_answered baseline r.response s h in (s, eo, t, good.0, good.1, good.2)

docker_state-healthy :
    (deadline baseline : ℕ) (r : Round) (o : Option ContainerState)
    → r.state ≡ o
    → r.now ≤ deadline
    → is_pass (docker_state baseline o) ≡ true
    → DockerHealthy deadline baseline r
unfolding docker_state
docker_state-healthy deadline baseline r none eo t h = absurd (false≢true h)
docker_state-healthy deadline baseline r (some s) eo t h =
    let good = state_healthy baseline s h in (s, eo, t, good.0, good.1)

http_round-passed :
    (deadline baseline : ℕ) (r : Round)
    → http_round deadline baseline r ≡ some passed
    → PathAnswered deadline baseline r
unfolding http_round
http_round-passed deadline baseline r h = elim (Bool-cases (ltb deadline r.now)) [
  | inl e ↦ absurd (false≢true (ap is_pass (rw e at h)))
  | inr e ↦
      http_state-answered deadline baseline r r.state refl (restarts_within deadline r.now e)
        (ap is_pass (rw e at h))
]

docker_round-passed :
    (deadline baseline : ℕ) (r : Round)
    → docker_round deadline baseline r ≡ some passed
    → DockerHealthy deadline baseline r
unfolding docker_round
docker_round-passed deadline baseline r h = elim (Bool-cases (ltb deadline r.now)) [
  | inl e ↦ absurd (false≢true (ap is_pass (rw e at h)))
  | inr e ↦
      docker_state-healthy deadline baseline r r.state refl (restarts_within deadline r.now e)
        (ap is_pass (rw e at h))
]

-- After five seconds the container runs and was not restarted.
abbrev pub StillUp : ℕ → Option ContainerState → Type 0
StillUp baseline final =
    (s : ContainerState) × (final ≡ some s) × (s.restart_count ≤ baseline) × (s.running ≡ true)

uptime_state-passed :
    (baseline : ℕ) (final : Option ContainerState)
    → is_pass (some (uptime_state baseline final)) ≡ true
    → StillUp baseline final
unfolding uptime_state
uptime_state-passed baseline none h = absurd (false≢true h)
uptime_state-passed baseline (some s) h = elim (Bool-cases (ltb baseline s.restart_count)) [
  | inl e ↦ absurd (false≢true (rw e at h))
  | inr e ↦ elim (Bool-cases s.running) [
    | inr f ↦ absurd (false≢true (rw (e, f) at h))
    | inl f ↦ (s, refl, restarts_within baseline s.restart_count e, f)
  ]
]

without_path-passed :
    (deadline baseline n : ℕ) (rounds : ℕ → Round) (initial final : Option ContainerState)
    → without_path (docker_round deadline baseline) baseline rounds n initial final ≡ some passed
    → ((k : ℕ) × DockerHealthy deadline baseline (rounds k)) ⊎ StillUp baseline final
unfolding without_path
without_path-passed deadline baseline n rounds none final h = absurd (false≢true (ap is_pass h))
without_path-passed deadline baseline n rounds (some s) final h =
    elim (Bool-cases (has_healthcheck s.health)) [
      | inl e ↦
          let found = poll-passed (docker_round deadline baseline) rounds n 0 (rw e at h) in
          inl (found.0, docker_round-passed deadline baseline (rounds found.0) found.1)
      | inr e ↦ inr (uptime_state-passed baseline final (ap is_pass (rw e at h)))
    ]

-- What the gate must have seen to pass, with a health path and without.
abbrev pub Earned : Bool → ℕ → ℕ → (ℕ → Round) → Option ContainerState → Type 0
Earned true deadline baseline rounds final = (k : ℕ) × PathAnswered deadline baseline (rounds k)
Earned false deadline baseline rounds final =
    ((k : ℕ) × DockerHealthy deadline baseline (rounds k)) ⊎ StillUp baseline final

-- When the gate passes: with a health path, in some round before the deadline the container was
-- running, not restarted since the deploy began, and answered the path well; without one, in some
-- round before the deadline Docker called it healthy and not restarted, or it was running and not
-- restarted after the five seconds.
pub health_gate-Earned :
    (checks_path : Bool) (deadline baseline n : ℕ) (rounds : ℕ → Round)
    (initial final : Option ContainerState)
    → health_gate checks_path deadline baseline rounds n initial final ≡ some passed
    → Earned checks_path deadline baseline rounds final
unfolding health_gate
health_gate-Earned true deadline baseline n rounds initial final h =
    let found = poll-passed (http_round deadline baseline) rounds n 0 h in
    (found.0, http_round-passed deadline baseline (rounds found.0) found.1)
health_gate-Earned false deadline baseline n rounds initial final h =
    without_path-passed deadline baseline n rounds initial final h
