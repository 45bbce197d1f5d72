-- ===== src/Worker/Tests.antt =====
-- Tests of the worker (src/queue/worker.ts): a deploy job whose handler fails it for good.
use musdash.Prelude.{◌≡◌, refl, ◌⊎◌, subst, String, true, false, [], ◌∷◌, some, none}
use mathlib.Core.Option.{some-injective}
use musdash.Queue.Fields.{text}
use musdash.Queue.Table.{Job, pending, get_job, oldest_where}
use musdash.Queue.{lease, claim}
use musdash.Deployments.{Deployment, running, manual, get_deployment}
use musdash.Worker.{System, Handler, Handlers, log_finished, run_job, tick, deployment_id_of}
use musdash.Worker.Outcome.{SettledIn, run_job_settles, tick_settles}
use musdash.Worker.GivenUp.{Retried, GivenUp, run_job-follows}

abbrev waiting : Job
waiting = record {
  id = "j";
  type = "deploy";
  payload_json = ("deploymentId", text "d") ∷ [];
  status = pending;
  attempts = 0;
  max_attempts = 1;
  run_after = 5;
  leased_until = none;
  last_error = none;
  created_at = 5;
}

abbrev deployment : Deployment
deployment = record {
  id = "d";
  resource_id = "r";
  status = running;
  trigger = manual;
  error = none;
  created_at = 5;
  finished_at = none;
}

abbrev before : System
before = record {
  jobs = waiting ∷ [];
  deployments = deployment ∷ [];
  events = [];
  clock = 10;
  busy = false;
}

abbrev leased_system : System
leased_system = record before { jobs = lease 10 waiting ∷ [] }

-- Every handler throws, and leaves a mark.
abbrev throw_boom : Handler
throw_boom payload s = (record s { events = log_finished "d" ∷ s.events }, some "boom")

abbrev throwing : Handlers
throwing type = some throw_boom

keeps_row :
    (h : Handler) (w : System)
    → throwing "deploy" ≡ some h
    → get_job "j" w.jobs ≡ some (lease 10 waiting)
    → get_job "j" (h waiting.payload_json w).0.jobs ≡ some (lease 10 waiting)
keeps_row h w e stored =
    subst (λ g. get_job "j" (g waiting.payload_json w).0.jobs ≡ some (lease 10 waiting))
      (some-injective _ _ e) stored

abbrev no_handler : String → String
no_handler type = "no handler"

run_job_settles_example :
    SettledIn (lease 10 waiting) (run_job throwing no_handler (lease 10 waiting) leased_system).jobs
unfolding get_job
run_job_settles_example =
    run_job_settles throwing no_handler (lease 10 waiting) leased_system refl
      (λ h e. keeps_row h leased_system e refl)

tick_settles_example :
    SettledIn (lease 10 waiting) (tick throwing no_handler before).0.jobs
    × ((tick throwing no_handler before).0.busy ≡ false)
    × ((tick throwing no_handler before).1 ≡ true)
unfolding claim oldest_where get_job
tick_settles_example =
    tick_settles throwing no_handler before (lease 10 waiting) (refl, tt) refl keeps_row

run_job-follows_example :
    Retried
      (lease 10 waiting)
      (throw_boom waiting.payload_json leased_system).0
      (run_job throwing no_handler (lease 10 waiting) leased_system)
    ⊎ GivenUp
        (lease 10 waiting)
        "d"
        deployment
        (throw_boom waiting.payload_json leased_system).0
        (run_job throwing no_handler (lease 10 waiting) leased_system)
unfolding get_job deployment_id_of get_deployment
run_job-follows_example =
    run_job-follows throwing no_handler (lease 10 waiting) leased_system
      (throw_boom waiting.payload_json leased_system).0 throw_boom "boom" "d" deployment refl refl
      refl refl refl
