-- ===== src/Deploy/HealthGate.antt =====
-- healthGate and assertNotRestarted (src/jobs/health-gate.ts). What Docker and the container answer
-- is given: round i of a loop looks at the clock, inspects the container and, in the loop of the HTTP
-- check, asks for the health path. The sentences of the errors are named by constructors.
pub mod Ends
use musdash.Prelude.{
  ℕ, suc, zero, ◌+◌, ◌-◌, String, Bool, true, false, ◌&&◌, not, Option, none, some, if◌then◌else◌,
  ltb, leb, is_some,
}

pub data Health : Type 0 where
  no_healthcheck : Health
  starting : Health
  healthy : Health
  unhealthy : Health

-- The fields that the gate looks at.
pub record ContainerState : Type 0 where
  pub running : Bool
  pub restart_count : ℕ
  pub exit_code : Option ℕ
  pub health : Health
  pub ip_address : Option String

-- `state` is none when the inspection throws; `response` is the status, or none when fetch throws.
pub record Round : Type 0 where
  pub now : ℕ
  pub state : Option ContainerState
  pub response : Option ℕ

-- How the gate ends: it returns, or throws one of its errors.
pub data GateEnd : Type 0 where
  passed : GateEnd
  timed_out : GateEnd
  restarted : (restarts : ℕ) → GateEnd
  exited : (code : Option ℕ) → GateEnd
  reported_unhealthy : GateEnd
  inspection_failed : GateEnd

-- res.ok
abbrev pub is_ok : Option ℕ → Bool
is_ok none = false
is_ok (some status) = leb 200 status && leb status 299

-- assertNotRestarted, then the rest of the round.
unfoldable pub unless_restarted : ℕ → ContainerState → Option GateEnd → Option GateEnd
unless_restarted baseline s next =
    if ltb baseline s.restart_count then some (restarted (s.restart_count - baseline)) else next

-- A round of the HTTP check after the inspection; none is another round.
unfoldable pub http_state : ℕ → Option ℕ → Option ContainerState → Option GateEnd
unfolding unless_restarted
http_state baseline response none = some inspection_failed
http_state baseline response (some s) = unless_restarted baseline s (
    if not s.running
    then some (exited s.exit_code)
    else if is_some s.ip_address && is_ok response
    then some passed
    else none)

unfoldable pub http_round : ℕ → ℕ → Round → Option GateEnd
unfolding http_state
http_round deadline baseline r =
    if ltb deadline r.now then some timed_out else http_state baseline r.response r.state

abbrev by_health : Bool → Option ℕ → Health → Option GateEnd
by_health running code healthy = some passed
by_health running code unhealthy = some reported_unhealthy
by_health running code _ = if not running then some (exited code) else none

-- A round of the loop over Docker's own health.
unfoldable pub docker_state : ℕ → Option ContainerState → Option GateEnd
unfolding unless_restarted
docker_state baseline none = some inspection_failed
docker_state baseline (some s) =
    unless_restarted baseline s (by_health s.running s.exit_code s.health)

unfoldable pub docker_round : ℕ → ℕ → Round → Option GateEnd
unfolding docker_state
docker_round deadline baseline r =
    if ltb deadline r.now then some timed_out else docker_state baseline r.state

abbrev pub or_else : Option GateEnd → Option GateEnd → Option GateEnd
or_else none rest = rest
or_else (some end) rest = some end

-- for (;;): the rounds from the i-th on. On no fuel the loop has not ended.
unfoldable pub poll : (Round → Option GateEnd) → (ℕ → Round) → ℕ → ℕ → Option GateEnd
poll round rounds zero i = none
poll round rounds (suc fuel) i = or_else (round (rounds i)) (poll round rounds fuel (i + 1))

-- After five seconds of uptime.
unfoldable pub uptime_state : ℕ → Option ContainerState → GateEnd
uptime_state baseline none = inspection_failed
uptime_state baseline (some s) =
    if ltb baseline s.restart_count
    then restarted (s.restart_count - baseline)
    else if not s.running
    then exited s.exit_code
    else passed

abbrev pub has_healthcheck : Health → Bool
has_healthcheck no_healthcheck = false
has_healthcheck _ = true

-- The part after the HTTP check: `initial` is the inspection that chooses between Docker's health and
-- the uptime, and `final` the one after the five seconds.
unfoldable pub without_path :
    (Round → Option GateEnd)
    → ℕ
    → (ℕ → Round)
    → ℕ
    → Option ContainerState
    → Option ContainerState
    → Option GateEnd
unfolding poll uptime_state
without_path round baseline rounds fuel none final = some inspection_failed
without_path round baseline rounds fuel (some s) final =
    if has_healthcheck s.health
    then poll round rounds fuel 0
    else some (uptime_state baseline final)

-- `checks_path` says that the deploy has a health path and a container port.
unfoldable pub health_gate :
    Bool → ℕ → ℕ → (ℕ → Round) → ℕ → Option ContainerState → Option ContainerState → Option GateEnd
unfolding poll without_path http_round docker_round
health_gate checks_path deadline baseline rounds fuel initial final =
    if checks_path
    then poll (http_round deadline baseline) rounds fuel 0
    else without_path (docker_round deadline baseline) baseline rounds fuel initial final
