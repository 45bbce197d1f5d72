-- ===== src/Reconcile/Plan.antt =====
-- When the reconciler redeploys (src/reconciler.ts, backoffMs and redeployPlan). Times are in
-- milliseconds. Where the code compares a difference that can be negative, the comparison is the
-- same with the difference cut off at 0.
pub mod Backoff
pub mod Timing
use musdash.Prelude.{
  ℕ, zero, suc, ◌+◌, ◌-◌, ◌*◌, ◌^◌, min, Bool, true, false, ◌&&◌, ◌||◌, Option, none, some, List,
  [], ◌∷◌, if◌then◌else◌, leb, ltb, ◌==◌, any,
}
use musdash.Deployments.{Deployment, DeploymentStatus, queued, running, Trigger, reconcile}

abbrev pub interval_ms : ℕ
interval_ms = 30000

abbrev pub backoff_base_ms : ℕ
backoff_base_ms = interval_ms

abbrev pub backoff_max_ms : ℕ
backoff_max_ms = 30 * 60 * 1000

abbrev pub streak_gap_ms : ℕ
streak_gap_ms = 2 * backoff_max_ms

unfoldable pub backoff_ms : ℕ → ℕ
backoff_ms attempt =
    if leb attempt 1 then 0 else min (backoff_base_ms * 2 ^ (attempt - 2)) backoff_max_ms

pub data RedeployPlan : Type 0 where
  wait : RedeployPlan
  redeploy : ℕ → RedeployPlan

abbrev pub is_open : DeploymentStatus → Bool
is_open queued = true
is_open running = true
is_open _ = false

abbrev pub is_reconcile : Trigger → Bool
is_reconcile reconcile = true
is_reconcile _ = false

abbrev pub finished_since : ℕ → Option ℕ → Bool
finished_since listed_at none = false
finished_since listed_at (some at) = leb listed_at at

-- A deploy that is queued or running and not too old, or that finished after the listing.
abbrev pub is_in_flight : ℕ → ℕ → Deployment → Bool
is_in_flight now listed_at d =
    is_open d.status && ltb (now - d.created_at) streak_gap_ms
    || finished_since listed_at d.finished_at

-- The loop over `recent`; `newer` is the time of the deployment before.
unfoldable pub streak_from : ℕ → List Deployment → ℕ
streak_from newer [] = 0
streak_from newer (d ∷ ds) =
    if is_reconcile d.trigger && leb (newer - d.created_at) streak_gap_ms
    then suc (streak_from d.created_at ds)
    else 0

abbrev pub decide : ℕ → ℕ → List Deployment → RedeployPlan
decide now zero recent = redeploy 0
decide now (suc n) [] = redeploy 0
decide now (suc n) (newest ∷ rest) =
    if ltb (now - newest.created_at) (backoff_ms (suc n + 1)) then wait else redeploy (suc n)

unfoldable pub redeploy_plan : List Deployment → ℕ → ℕ → RedeployPlan
redeploy_plan recent now listed_at =
    if any (is_in_flight now listed_at) recent
    then wait
    else decide now (streak_from now recent) recent
