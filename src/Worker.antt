-- ===== src/Worker.antt =====
-- The worker (src/queue/worker.ts): one tick of the loop, which claims a job, runs its handler to
-- the end and records the outcome. What a handler does is a parameter: a function of the payload
-- and of the state, which returns the state and the message it threw, if any.
pub mod Outcome
pub mod GivenUp
mod Tests
use musdash.Prelude.{
  ℕ, String, Bool, true, false, Option, none, some, List, [], ◌∷◌, ◌++◌, if◌then◌else◌, str_eq, not,
}
use musdash.Queue.Fields.{Payload, Scalar, text}
use musdash.Queue.Table.{Job, Rows}
use musdash.Queue.{FailResult, claim, complete, fail}
use musdash.Deployments.{
  Deployment, DeploymentStatus, failed, is_failed, get_deployment, mark_deployment_failed,
}

-- What leaves the process by src/events.ts.
pub data Event : Type 0 where
  log_finished : String → Event
  deployment_event : String → String → DeploymentStatus → Event

pub record System : Type 0 where
  pub jobs : Rows
  pub deployments : List Deployment
  pub events : List Event
  pub clock : ℕ
  pub busy : Bool

abbrev pub Handler : Type 0
Handler = Payload → System → System × Option String

abbrev pub Handlers : Type 0
Handlers = String → Option Handler

-- payload.deploymentId where it is a string.
unfoldable pub deployment_id_of : Payload → Option String
deployment_id_of [] = none
deployment_id_of ((k, text v) ∷ rest) =
    if str_eq k "deploymentId" then some v else deployment_id_of rest
deployment_id_of ((k, v) ∷ rest) = if str_eq k "deploymentId" then none else deployment_id_of rest

abbrev pub emit : Event → System → System
emit e s = record s { events = s.events ++ e ∷ [] }

-- A deployment that is there and not yet failed is marked so, and the change is published.
abbrev pub mark_failed : String → String → Option Deployment → System → System
mark_failed d message none s = s
mark_failed d message (some deployment) s =
    if is_failed deployment.status
    then s
    else emit (deployment_event d deployment.resource_id failed)
        (record s { deployments = mark_deployment_failed d message s.clock s.deployments })

abbrev pub propagate : Option String → String → System → System
propagate none message s = s
propagate (some d) message s =
    let s' = emit (log_finished d) s in mark_failed d message (get_deployment d s'.deployments) s'

unfoldable pub record_failure : Job → String → System → System
record_failure job message s =
    let (result, rows) = fail job.id message s.clock s.jobs in
    let s' = record s { jobs = rows } in
    if result.retrying then s' else propagate (deployment_id_of job.payload_json) message s'

abbrev pub settle : Job → System × Option String → System
settle job (s, none) = record s { jobs = complete job.id s.jobs }
settle job (s, some message) = record_failure job message s

module _ (handlers : Handlers) (no_handler : String → String) where
  abbrev run_with : Job → Option Handler → System → System
  run_with job none s = record s { jobs = (fail job.id (no_handler job.type) s.clock s.jobs).1 }
  run_with job (some handler) s = settle job (handler job.payload_json s)

  unfoldable pub run_job : Job → System → System
  run_job job s = run_with job (handlers job.type) s

  abbrev tick_with : Option Job × Rows → System → System × Bool
  tick_with (none, rows) s = (record s { jobs = rows }, false)
  tick_with (some job, rows) s =
      let s' = run_job job (record s { jobs = rows; busy = true }) in
      (record s' { busy = false }, true)

  unfoldable pub tick : System → System × Bool
  unfolding run_job
  tick s = tick_with (claim s.clock s.jobs) s
