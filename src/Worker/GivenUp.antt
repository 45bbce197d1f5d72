-- ===== src/Worker/GivenUp.antt =====
-- What a job whose handler throws does to the deployment it works for (src/queue/worker.ts, runJob).
use musdash.Prelude.{
  ◌≤◌, ◌<◌, ◌≡◌, refl, sym, append-nil, ap, ◌∙◌, ◌⊎◌, inl, inr, String, Bool, true, false, some, [],
  ◌∷◌, ◌++◌, arith, eq_iff, str_eq, Bool-cases, if◌then◌else◌, leb,
}
use mathlib.Core.Bool.{false≢true}
use musdash.Queue.Table.{Job, pending, failed, get_job}
use musdash.Queue.{fail}
use musdash.Queue.Outcome.{fail_lem, after_failure}
use musdash.Deployments.{
  Deployment, DeploymentStatus, is_failed, failed_with, get_deployment, get_deployment-mark_failed,
  get_deployment-mark_failed_other,
}
use musdash.Worker.{
  System, Handler, Handlers, log_finished, deployment_event, deployment_id_of, record_failure,
  run_job,
}
use musdash.Worker.Outcome.{jobs-record_failure}

-- The job waits for another attempt, and nothing is said of its deployment.
pub record Retried (job : Job) (s after : System) : Type 0 where
  pub row : Job
  pub stored : get_job job.id after.jobs ≡ some row
  pub waits : row.status ≡ pending
  pub left : job.attempts < job.max_attempts
  pub deployments : after.deployments ≡ s.deployments
  pub events : after.events ≡ s.events

-- The job has failed and so has its deployment, alone; its log is marked finished before the new status
-- is published. A deployment that had failed keeps its error, and is not published again.
pub record GivenUp (job : Job) (d : String) (deployment : Deployment) (s after : System)
    : Type 0 where
  pub row : Job
  pub stored : get_job job.id after.jobs ≡ some row
  pub gave_up : row.status ≡ failed
  pub none_left : job.max_attempts ≤ job.attempts
  pub own : Deployment
  pub found : get_deployment d after.deployments ≡ some own
  pub own_failed : own.status ≡ DeploymentStatus.failed
  pub first_wins : is_failed deployment.status ≡ true → own ≡ deployment
  pub others :
      (e : String)
      → str_eq d e ≡ false
      → get_deployment e after.deployments ≡ get_deployment e s.deployments
  pub events :
      after.events
      ≡ (s.events ++ log_finished d ∷ [])
        ++ (if is_failed deployment.status
            then []
            else deployment_event d deployment.resource_id DeploymentStatus.failed ∷ [])

is_failed_inv : (st : DeploymentStatus) → is_failed st ≡ true → st ≡ DeploymentStatus.failed
is_failed_inv DeploymentStatus.failed h = refl
is_failed_inv _ h = cc

retrying-record_failure :
    (job : Job) (message : String) (s : System)
    → (fail job.id message s.clock s.jobs).0.retrying ≡ true
    → (record_failure job message s).deployments ≡ s.deployments
      × ((record_failure job message s).events ≡ s.events)
unfolding record_failure
retrying-record_failure job message s e = (rw e refl, rw e refl)

row_after :
    (job : Job) (message : String) (s : System)
    → get_job job.id s.jobs ≡ some job
    → get_job job.id (record_failure job message s).jobs ≡ some (after_failure message s.clock job)
row_after job message s stored =
    ap (get_job job.id) (jobs-record_failure job message s)
    ∙ (fail_lem job.id message s.clock s.jobs job stored).1 job.id
    ∙ rw ((eq_iff job.id job.id).1 refl) refl

retrying_if :
    (job : Job) (message : String) (s : System) (b : Bool)
    → get_job job.id s.jobs ≡ some job
    → leb job.max_attempts job.attempts ≡ b
    → (fail job.id message s.clock s.jobs).0.retrying ≡ (if b then false else true)
retrying_if job message s b stored e =
    ap (λ r. r.retrying) (fail_lem job.id message s.clock s.jobs job stored).0
    ∙ ap (λ c. if c then false else true) e

module _ (job : Job) (message d : String) (deployment : Deployment) (s : System) where
  failure_recorded :
      get_job job.id s.jobs ≡ some job
      → deployment_id_of job.payload_json ≡ some d
      → get_deployment d s.deployments ≡ some deployment
      → Retried job s (record_failure job message s)
        ⊎ GivenUp job d deployment s (record_failure job message s)
  unfolding record_failure
  failure_recorded stored payload found = elim (Bool-cases (leb job.max_attempts job.attempts)) [
    | inr room ↦
        let kept =
          retrying-record_failure job message s (retrying_if job message s false stored room) in
        inl (record {
          row = after_failure message s.clock job;
          stored = row_after job message s stored;
          waits = rw room refl;
          left = ground (arith, room);
          deployments = kept.0;
          events = kept.1;
        })
    | inl out ↦ inr (given_up out)
  ]
    where
      given_up :
          leb job.max_attempts job.attempts ≡ true
          → GivenUp job d deployment s (record_failure job message s)
      given_up out =
          let stops = retrying_if job message s true stored out in
          elim (Bool-cases (is_failed deployment.status)) [
            | inl before ↦ record {
              row = after_failure message s.clock job;
              stored = row_after job message s stored;
              gave_up = rw out refl;
              none_left = ground (arith, out);
              own = deployment;
              found = rw (stops, payload, found, before) found;
              own_failed = is_failed_inv deployment.status before;
              first_wins = λ h. refl;
              others = λ e other. rw (stops, payload, found, before) refl;
              events =
                  rw (stops, payload, found, before)
                    (sym (append-nil (s.events ++ log_finished d ∷ [])));
            }
            | inr live ↦ record {
              row = after_failure message s.clock job;
              stored = row_after job message s stored;
              gave_up = rw out refl;
              none_left = ground (arith, out);
              own = failed_with message s.clock deployment;
              found =
                  rw (stops, payload, found, live)
                    (get_deployment-mark_failed d message s.clock s.deployments ∙ rw found refl);
              own_failed = refl;
              first_wins = λ h. absurd (false≢true (sym live ∙ h));
              others = λ e other.
                  rw (stops, payload, found, live)
                    (get_deployment-mark_failed_other d e message s.clock s.deployments other);
              events = rw (stops, payload, found, live) refl;
            }
          ]

-- A job whose handler throws, and leaves the job's row and the deployment that its payload names
-- stored, is either retried or given up, and the deployment follows. While an attempt is left the job
-- waits for it, and recording the failure changes no deployment and publishes nothing. With none left
-- the job and the deployment have both failed, whatever the deployment was before, and no other
-- deployment changes; its log is marked finished, and its new status is published after that unless it
-- had failed already, when it stays as it was.
pub run_job-follows :
    (handlers : Handlers) (no_handler : String → String) (job : Job) (s s' : System) (h : Handler)
    (message d : String) (deployment : Deployment)
    → handlers job.type ≡ some h
    → h job.payload_json s ≡ (s', some message)
    → get_job job.id s'.jobs ≡ some job
    → deployment_id_of job.payload_json ≡ some d
    → get_deployment d s'.deployments ≡ some deployment
    → Retried job s' (run_job handlers no_handler job s)
      ⊎ GivenUp job d deployment s' (run_job handlers no_handler job s)
unfolding run_job
run_job-follows handlers no_handler job s s' h message d deployment named threw stored payload
      found =
    rw (named, threw) (failure_recorded job message d deployment s' stored payload found)
