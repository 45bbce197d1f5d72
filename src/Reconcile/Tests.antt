-- ===== src/Reconcile/Tests.antt =====
-- Tests of the redeploy plan (src/reconciler.ts).
use musdash.Prelude.{ℕ, ◌≡◌, refl, arith, List, [], ◌∷◌, Option, some, none, All, false}
use musdash.Deployments.{Deployment, DeploymentStatus, queued, failed, Trigger, reconcile, manual}
use musdash.Reconcile.Plan.{backoff_ms, redeploy_plan, redeploy, is_in_flight, streak_from}
use musdash.Reconcile.Plan.Timing.{Spaced, redeploy_plan-Spaced, redeploy_plan_heals}
use musdash.Prelude.{Bool, true}
use musdash.Prelude.Show.{show}
use musdash.Queue.Table.{get_job}
use musdash.Reconcile.Sidecars.{Tick, caddy_ticks}
use musdash.Reconcile.Sidecars.Buckets.{first_needed, with_bootstrap, one_bootstrap_per_bucket}

abbrev deployment_of : DeploymentStatus → Trigger → ℕ → Option ℕ → Deployment
deployment_of status trigger created_at finished_at = record {
  id = "d";
  resource_id = "r";
  status = status;
  trigger = trigger;
  error = none;
  created_at = created_at;
  finished_at = finished_at;
}

-- The reconciler's first attempt, which failed, after one that a person asked for.
abbrev history : List Deployment
history =
    deployment_of failed reconcile 100000 (some 101000)
    ∷ deployment_of failed manual 1000 (some 2000)
    ∷ []

-- A queued row whose job was lost.
abbrev lost : List Deployment
lost = deployment_of queued reconcile 1000 none ∷ []

redeploy_plan-Spaced_example :
    All (λ d. is_in_flight 131000 130500 d ≡ false) history
    × (1 ≡ streak_from 131000 history)
    × Spaced 131000 1 history
unfolding redeploy_plan streak_from backoff_ms
redeploy_plan-Spaced_example = redeploy_plan-Spaced history 131000 130500 1 refl

redeploy_plan_heals_example : (k : ℕ) × (redeploy_plan history 2000000 1999000 ≡ redeploy k)
redeploy_plan_heals_example =
    redeploy_plan_heals (deployment_of failed reconcile 100000 (some 101000))
      (deployment_of failed manual 1000 (some 2000) ∷ []) 2000000 1999000 (refl, (refl, tt))
      (omega arith)

-- Three passes in one window; the second and the third find the proxy down.
abbrev pass_at : ℕ → List Bool → Tick
pass_at now found = record {
  now = now;
  fresh = "f";
  found = some found;
  answers = true;
  worker_busy = false;
}

abbrev passes : List Tick
passes = pass_at 600000 (true ∷ []) ∷ pass_at 630000 [] ∷ pass_at 660000 (false ∷ []) ∷ []

one_bootstrap_per_bucket_example :
    caddy_ticks "n" passes [] ≡ with_bootstrap "n" "ensure-caddy-n-2" [] (first_needed "n" passes)
unfolding show get_job
one_bootstrap_per_bucket_example =
    one_bootstrap_per_bucket "n" 2 passes [] (refl, (refl, (refl, tt))) refl
