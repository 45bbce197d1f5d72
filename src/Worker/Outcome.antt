-- ===== src/Worker/Outcome.antt =====
-- What one run of a job leaves behind (src/queue/worker.ts, runJob and tick).
use musdash.Prelude.{
  ℕ, ◌≤◌, ◌<◌, ◌≡◌, refl, ◌∙◌, ◌⊎◌, inl, inr, String, true, false, Option, none, some, arith,
  eq_iff, Bool-cases, Option-cases,
}
use musdash.Queue.Table.{Job, Rows, pending, done, failed, get_job}
use musdash.Queue.{claim, finish, fail}
use musdash.Queue.Statements.{HasUniqueIds}
use musdash.Queue.Claim.{claim-Claimed}
use musdash.Queue.Outcome.{get_job-complete, fail_lem, after_failure}
use musdash.Deployments.{Deployment, get_deployment}
use musdash.Worker.{
  System, Handler, Handlers, log_finished, deployment_id_of, emit, mark_failed, propagate,
  record_failure, settle, run_job, tick,
}

-- How a job's row may look once its run is recorded: never leased.
abbrev pub Settled : Job → Job → Type 0
Settled job row =
    (row.status ≡ done)
    ⊎ (row.status ≡ pending) × (job.attempts < job.max_attempts)
    ⊎ (row.status ≡ failed) × (job.max_attempts ≤ job.attempts)

abbrev pub SettledIn : Job → Rows → Type 0
SettledIn job rows = (row : Job) × (get_job job.id rows ≡ some row) × Settled job row

fail_settles :
    (job : Job) (message : String) (now : ℕ) (t : Rows)
    → get_job job.id t ≡ some job
    → SettledIn job (fail job.id message now t).1
fail_settles job message now t stored = (
  after_failure message now job,
  (fail_lem job.id message now t job stored).1 job.id ∙ (rw ((eq_iff job.id job.id).1 refl)),
  ground arith,
)

jobs-mark_failed :
    (d message : String) (o : Option Deployment) (s : System)
    → (mark_failed d message o s).jobs ≡ s.jobs
jobs-mark_failed d message none s = refl
jobs-mark_failed d message (some deployment) s = ground arith

-- Propagating a failure writes no job row.
jobs-propagate :
    (o : Option String) (message : String) (s : System) → (propagate o message s).jobs ≡ s.jobs
jobs-propagate none message s = refl
jobs-propagate (some d) message s =
    jobs-mark_failed d message (get_deployment d s.deployments) (emit (log_finished d) s)

pub jobs-record_failure :
    (job : Job) (message : String) (s : System)
    → (record_failure job message s).jobs ≡ (fail job.id message s.clock s.jobs).1
unfolding record_failure
jobs-record_failure job message s =
    elim (Bool-cases (fail job.id message s.clock s.jobs).0.retrying) [
      | inl e ↦ rw e
      | inr e ↦ rw e (jobs-propagate (deployment_id_of job.payload_json) message _)
    ]

settle_settles :
    (job : Job) (s : System) (thrown : Option String)
    → get_job job.id s.jobs ≡ some job
    → SettledIn job (settle job (s, thrown)).jobs
settle_settles job s none stored = (
  finish job,
  get_job-complete job.id job.id s.jobs ∙ rw ((eq_iff job.id job.id).1 refl, stored),
  inl refl,
)
settle_settles job s (some message) stored =
    let (row, e, settled) = fail_settles job message s.clock s.jobs stored in
    (row, rw (jobs-record_failure job message s) e, settled)

module _ (handlers : Handlers) (no_handler : String → String) where
  -- A job whose row is stored is, after its run, done, pending with an attempt left, or failed
  -- with none left: never still leased. The handler of its type, if there is one, may do
  -- anything to the state but touch the job's row.
  pub run_job_settles :
      (job : Job) (s : System)
      → get_job job.id s.jobs ≡ some job
      → ((h : Handler)
          → handlers job.type ≡ some h
          → get_job job.id (h job.payload_json s).0.jobs ≡ some job)
      → SettledIn job (run_job handlers no_handler job s).jobs
  unfolding run_job
  run_job_settles job s stored keeps = elim (Option-cases (handlers job.type)) [
    | inl e ↦ rw e (fail_settles job (no_handler job.type) s.clock s.jobs stored)
    | inr (h, e) ↦
        rw e (settle_settles job (h job.payload_json s).0 (h job.payload_json s).1 (keeps h e))
  ]

  -- One tick where the claim returns a job, in a table with unique ids: the job is settled, the
  -- worker is no longer busy, and the loop is told to go on at once. The handler of the job's
  -- type, if there is one, leaves the job's row alone.
  pub tick_settles :
      (s : System) (job : Job)
      → HasUniqueIds s.jobs
      → (claim s.clock s.jobs).0 ≡ some job
      → ((h : Handler) (w : System)
          → handlers job.type ≡ some h
          → get_job job.id w.jobs ≡ some job
          → get_job job.id (h job.payload_json w).0.jobs ≡ some job)
      → SettledIn job (tick handlers no_handler s).0.jobs
        × ((tick handlers no_handler s).0.busy ≡ false)
        × ((tick handlers no_handler s).1 ≡ true)
  unfolding tick
  tick_settles s job u e keeps =
      let c = claim-Claimed s.clock s.jobs job u e in
      let s' = record s { jobs = (claim s.clock s.jobs).1; busy = true } in
      let leased_row : get_job job.id s'.jobs ≡ some job =
        c.rows job.id ∙ rw ((eq_iff job.id job.id).1 refl) in
      rw e (run_job_settles job s' leased_row (λ h q. keeps h s' q leased_row), refl, refl)
