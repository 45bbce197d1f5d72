-- ===== src/Queue/Tests.antt =====
-- Tests of the queue (src/queue/index.ts): a table of two jobs, and a short run.
use musdash.Prelude.{max, ◌+◌, ℕ, ◌≤◌, ◌≡◌, refl, ◌⊎◌, String, none, some, [], ◌∷◌}
use musdash.Queue.Fields.{Payload, text}
use musdash.Queue.Table.{
  Job, Rows, Status, pending, leased, done, get_job, oldest_where, update_where,
}
use musdash.Queue.{EnqueueOptions, lease, claim, enqueue, complete}
use musdash.Queue.Claim.{Claimed, claim-Claimed}
use musdash.Queue.Reach.{World, Step, Reach, enqueues, claims, completes, here, next, start}
use musdash.Queue.Reach.Lifecycle.{Origin, Step-Origin}
use musdash.Queue.Reach.Claims.{times_claimed, claims_bounded}
use musdash.Queue.Reach.Finished.{finished_stays}

abbrev deploy_payload : Payload
deploy_payload = ("deploymentId", text "d1") ∷ ("resourceId", text "r1") ∷ []

abbrev options : EnqueueOptions
options = record { run_after = none; max_attempts = none; id = none }

abbrev job_of : String → Status → ℕ → ℕ → Job
job_of i status attempts created_at = record {
  id = i;
  type = "deploy";
  payload_json = deploy_payload;
  status = status;
  attempts = attempts;
  max_attempts = 3;
  run_after = created_at;
  leased_until = none;
  last_error = none;
  created_at = created_at;
}

abbrev older_job : Job
older_job = job_of "a" pending 0 5

abbrev newer_job : Job
newer_job = job_of "b" pending 0 7

abbrev two_jobs : Rows
two_jobs = newer_job ∷ older_job ∷ []

abbrev mixed : Rows
mixed = job_of "c" leased 1 3 ∷ job_of "d" done 1 2 ∷ older_job ∷ []

claim-Claimed_example : Claimed 10 two_jobs (lease 10 older_job)
unfolding claim get_job oldest_where update_where
claim-Claimed_example = claim-Claimed 10 two_jobs (lease 10 older_job) (refl, (refl, tt)) refl

-- One job is enqueued, claimed, fails once and is done the second time.
abbrev queued : World
queued = record start { rows = job_of "a" pending 0 5 ∷ [] }

abbrev due : Job
due = record (job_of "a" pending 0 5) { run_after = 5 }

abbrev running : World
running = record { rows = lease 6 due ∷ []; running = some "a"; recoveries = 0 }

abbrev finished : World
finished = record {
  rows = record (lease 6 due) { status = done; leased_until = none } ∷ [];
  running = none;
  recoveries = 0;
}

enqueued : Step start queued
unfolding enqueue get_job
enqueued = enqueues "deploy" deploy_payload options "a" "a" 5 queued.rows refl refl

Reach-queued : Reach start queued
Reach-queued = next here enqueued

claimed : Step queued running
unfolding claim oldest_where update_where
claimed = claims 6 refl refl

Reach-running : Reach start running
Reach-running = next Reach-queued claimed

completed : Step running finished
unfolding complete update_where
completed = completes "a" refl refl

Reach-finished : Reach start finished
Reach-finished = next Reach-running completed

Step-Origin_example : Origin queued running "a" (lease 6 due)
unfolding get_job
Step-Origin_example = Step-Origin queued running "a" (lease 6 due) (refl, tt) claimed refl

claims_bounded_example :
    (times_claimed "a" running Reach-running ≤ max 3 1 + 0)
    × (times_claimed "a" running Reach-running ≡ 1)
unfolding get_job
claims_bounded_example = claims_bounded running "a" (lease 6 due) Reach-running refl

-- A finished job through a claim that finds nothing.
idle : Step finished finished
unfolding claim oldest_where
idle = claims 9 refl refl

finished_stays_example :
    (get_job "a" finished.rows ≡ none)
    ⊎ (get_job "a" finished.rows
        ≡ some (record (lease 6 due) { status = done; leased_until = none }))
unfolding get_job
finished_stays_example =
    finished_stays finished finished "a"
      (record (lease 6 due) { status = done; leased_until = none }) Reach-finished idle refl refl
