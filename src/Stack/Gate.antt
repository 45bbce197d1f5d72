-- ===== src/Stack/Gate.antt =====
-- What the deploy gate and the reconciler make of a service's container (src/jobs/compose-plan.ts,
-- isOneShot, serviceVerdict and stackServicesDown). A reason is named by a constructor in place of
-- its sentence.
use musdash.Prelude.{
  ℕ, ◌-◌, ◌≤◌, ◌≡◌, ◌≢◌, String, Bool, true, false, ◌&&◌, ◌||◌, not, Option, none, some, List, [],
  ◌∷◌, arith, if◌then◌else◌, str_eq, ltb, lt→ltb, ltb→lt, ◌==◌, starts_with, Bool-cases, inl, inr,
}
use musdash.Prelude.Dict.{Dict, get}

-- A restart policy that is no text is none.
abbrev pub is_one_shot : Option String → Bool
is_one_shot none = false
is_one_shot (some restart) = str_eq restart "no" || starts_with restart "on-failure"

pub record ServiceObservation : Type 0 where
  pub state : Option String
  pub container_id : Option String
  pub exit_code : Option ℕ
  pub restart_count : ℕ

pub record ServiceBaseline : Type 0 where
  pub container_id : String
  pub restart_count : ℕ

pub data Reason : Type 0 where
  has_no_container exited : Reason
  crashed : ℕ → Reason
  exited_with : ℕ → Reason
  is_in : String → Reason

pub data ServiceVerdict : Type 0 where
  ok : ServiceVerdict
  not_ok : (final : Bool) → Reason → ServiceVerdict

abbrev pub restarts_before : Option ServiceBaseline → String → ℕ
restarts_before none id = 0
restarts_before (some b) id = if str_eq b.container_id id then b.restart_count else 0

abbrev pub exit_verdict : Option ℕ → Option String → ServiceVerdict
exit_verdict none restart = not_ok false exited
exit_verdict (some code) restart =
    if code == 0
    then (if is_one_shot restart then ok else not_ok false exited)
    else not_ok true (exited_with code)

abbrev pub state_verdict : String → Option ℕ → Option String → ServiceVerdict
state_verdict state exit_code restart =
    if str_eq state "running"
    then ok
    else if str_eq state "exited"
    then exit_verdict exit_code restart
    else not_ok false (is_in state)

-- A negative difference of counts is no restart, as 0 is.
abbrev pub container_verdict :
    ServiceObservation → String → String → Option ServiceBaseline → Option String → ServiceVerdict
container_verdict obs id state baseline restart =
    let restarts = obs.restart_count - restarts_before baseline id in
    if ltb 0 restarts
    then not_ok true (crashed restarts)
    else state_verdict state obs.exit_code restart

abbrev verdict_of :
    ServiceObservation
    → Option String
    → Option String
    → Option ServiceBaseline
    → Option String
    → ServiceVerdict
verdict_of obs (some id) (some state) baseline restart =
    container_verdict obs id state baseline restart
verdict_of obs _ _ baseline restart = not_ok false has_no_container

unfoldable pub service_verdict :
    ServiceObservation → Option ServiceBaseline → Option String → ServiceVerdict
service_verdict obs baseline restart = verdict_of obs obs.container_id obs.state baseline restart

-- What the reconciler sees of one service container.
pub record StackContainerView : Type 0 where
  pub running : Bool
  pub state : String
  pub exit_code : Option ℕ

abbrev is_zero : Option ℕ → Bool
is_zero none = false
is_zero (some n) = n == 0

abbrev pub is_down : Option StackContainerView → Bool
is_down none = true
is_down (some c) = not c.running && not (str_eq c.state "exited" && is_zero c.exit_code)

unfoldable pub stack_services_down : List String → Dict StackContainerView → List String
stack_services_down [] containers = []
stack_services_down (service ∷ services) containers =
    let rest = stack_services_down services containers in
    if is_down (get service containers) then service ∷ rest else rest

-- The reconciler's view of an observation.
abbrev pub view_of : String → Option ℕ → StackContainerView
view_of state exit_code = record {
  running = str_eq state "running";
  state = state;
  exit_code = exit_code;
}

exit_not_down :
    (exit_code : Option ℕ) (restart : Option String)
    → exit_verdict exit_code restart ≡ ok
    → is_zero exit_code ≡ true
exit_not_down none restart h = cc
exit_not_down (some n) restart h = ground arith

state_not_down :
    (state : String) (exit_code : Option ℕ) (restart : Option String)
    → state_verdict state exit_code restart ≡ ok
    → is_down (some (view_of state exit_code)) ≡ false
state_not_down state exit_code restart h = elim (Bool-cases (str_eq state "running")) [
  | inl running ↦ rw running
  | inr stopped ↦ elim (Bool-cases (str_eq state "exited")) [
    | inl gone ↦ rw (stopped, gone, exit_not_down exit_code restart (rw (stopped, gone) at h))
    | inr other ↦ absurd (ground arith)
  ]
]

-- The gate and the reconciler agree: a container that the gate passes is not one that the
-- reconciler, seeing the same state and exit code, redeploys the stack for.
pub service_verdict-is_down :
    (obs : ServiceObservation) (baseline : Option ServiceBaseline) (restart : Option String)
    (id state : String)
    → obs.container_id ≡ some id
    → obs.state ≡ some state
    → service_verdict obs baseline restart ≡ ok
    → is_down (some (view_of state obs.exit_code)) ≡ false
unfolding service_verdict
service_verdict-is_down obs baseline restart id state e s h =
    let verdict : container_verdict obs id state baseline restart ≡ ok = rw (e, s) at h in
    elim (Bool-cases (ltb 0 (obs.restart_count - restarts_before baseline id))) [
      | inl restarted ↦ absurd (ground arith)
      | inr fresh ↦ state_not_down state obs.exit_code restart (rw fresh at verdict)
    ]

exit_not_crashed :
    (exit_code : Option ℕ) (restart : Option String) (n : ℕ)
    → exit_verdict exit_code restart ≢ not_ok true (crashed n)
exit_not_crashed none restart n h = cc
exit_not_crashed (some code) restart n h = ground arith

state_not_crashed :
    (state : String) (exit_code : Option ℕ) (restart : Option String) (n : ℕ)
    → state_verdict state exit_code restart ≢ not_ok true (crashed n)
state_not_crashed state exit_code restart n h = elim (Bool-cases (str_eq state "running")) [
  | inl running ↦ absurd (ground arith)
  | inr stopped ↦ elim (Bool-cases (str_eq state "exited")) [
    | inl gone ↦ exit_not_crashed exit_code restart n (rw (stopped, gone) at h)
    | inr other ↦ absurd (ground arith)
  ]
]

-- A refusal for a crash is final: as the restart count of a container only grows, every later
-- observation of the same container, against the same baseline, is refused for good again.
pub crash_is_final :
    (obs later : ServiceObservation) (baseline : Option ServiceBaseline) (restart : Option String)
    (id state state' : String) (n : ℕ)
    → obs.container_id ≡ some id
    → obs.state ≡ some state
    → later.container_id ≡ some id
    → later.state ≡ some state'
    → obs.restart_count ≤ later.restart_count
    → service_verdict obs baseline restart ≡ not_ok true (crashed n)
    → (m : ℕ) × (service_verdict later baseline restart ≡ not_ok true (crashed m))
unfolding service_verdict
crash_is_final obs later baseline restart id state state' n e s e' s' grows h =
    let before = restarts_before baseline id in
    let verdict : container_verdict obs id state baseline restart ≡ not_ok true (crashed n) =
      rw (e, s) at h in
    elim (Bool-cases (ltb 0 (obs.restart_count - before))) [
      | inl restarted ↦
          let more : ltb 0 (later.restart_count - before) ≡ true =
            lt→ltb 0 (later.restart_count - before)
              (omega (arith, ltb→lt 0 (obs.restart_count - before) restarted)) in
          (later.restart_count - before, rw (e', s', more))
      | inr fresh ↦ absurd (state_not_crashed state obs.exit_code restart n (rw fresh at verdict))
    ]
