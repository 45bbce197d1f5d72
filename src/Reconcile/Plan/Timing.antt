-- ===== src/Reconcile/Plan/Timing.antt =====
-- When a plan says to redeploy, and that it does not wait for ever (src/reconciler.ts,
-- redeployPlan).
use musdash.Prelude.{
  ℕ, zero, suc, ◌+◌, ◌-◌, ◌≤◌, ◌≡◌, ◌≢◌, refl, inl, inr, Bool, false, List, [], ◌∷◌, arith, any,
  All, All-imp, Bool-cases,
}
use musdash.Deployments.{Deployment, reconcile}
use musdash.Reconcile.Plan.{
  backoff_ms, backoff_max_ms, streak_gap_ms, wait, redeploy, is_in_flight, finished_since,
  streak_from, decide, redeploy_plan,
}
use musdash.Reconcile.Plan.Backoff.{backoff_ms-le_max}

wait-ne-redeploy : (k : ℕ) → wait ≢ redeploy k
wait-ne-redeploy k e = cc

any-false :
    (p : Deployment → Bool) (ds : List Deployment) → any p ds ≡ false → All (λ d. p d ≡ false) ds
any-false p [] h = tt
any-false p (d ∷ ds) h = ground (arith, any-false p ds)

any_of_All :
    (p : Deployment → Bool) (ds : List Deployment) → All (λ d. p d ≡ false) ds → any p ds ≡ false
any_of_All p [] h = refl
any_of_All p (d ∷ ds) (h, hs) = rw (h, any_of_All p ds hs)

-- A redeploy that continues a streak keeps its distance.
abbrev pub Spaced : ℕ → ℕ → List Deployment → Type 0
Spaced now zero recent = Unit
Spaced now (suc k) recent =
    (newest : Deployment) × (rest : List Deployment) × (recent ≡ newest ∷ rest)
    × (newest.trigger ≡ reconcile)
    × (backoff_ms (suc k + 1) ≤ now - newest.created_at)

decide-Spaced :
    (now n k : ℕ) (recent : List Deployment)
    → n ≡ streak_from now recent
    → decide now n recent ≡ redeploy k
    → (k ≡ streak_from now recent) × Spaced now k recent
unfolding streak_from
decide-Spaced now zero zero recent e h = (e, tt)
decide-Spaced now zero (suc k) recent e h = cc
decide-Spaced now (suc n) zero [] e h = cc
decide-Spaced now (suc n) zero (d ∷ ds) e h = ground arith
decide-Spaced now (suc n) (suc k) [] e h = cc
decide-Spaced now (suc n) (suc k) (d ∷ ds) e h =
    (ground arith, (d, ds, refl, ground arith, ground arith))

-- When the plan is to redeploy, no deployment is in flight, the number it carries is the length
-- of the streak, and if that is not 0 the newest deployment was the reconciler's own and is at
-- least the backoff of the next attempt old.
pub redeploy_plan-Spaced :
    (recent : List Deployment) (now listed_at k : ℕ)
    → redeploy_plan recent now listed_at ≡ redeploy k
    → All (λ d. is_in_flight now listed_at d ≡ false) recent
      × (k ≡ streak_from now recent)
      × Spaced now k recent
unfolding redeploy_plan
redeploy_plan-Spaced recent now listed_at k h =
    elim (Bool-cases (any (is_in_flight now listed_at) recent)) [
      | inl busy ↦ absurd (wait-ne-redeploy k (rw busy at h))
      | inr idle ↦
          let (same, spaced) =
            decide-Spaced now (streak_from now recent) k recent refl (rw idle at h) in
          (any-false (is_in_flight now listed_at) recent idle, same, spaced)
    ]

-- A deployment that blocks nothing: finished before the listing, and not open or older than the gap.
abbrev pub IsStale : ℕ → ℕ → Deployment → Type 0
IsStale now listed_at d =
    (streak_gap_ms ≤ now - d.created_at) × (finished_since listed_at d.finished_at ≡ false)

decide_late :
    (now n : ℕ) (newest : Deployment) (rest : List Deployment)
    → newest.created_at + backoff_max_ms ≤ now
    → (k : ℕ) × (decide now n (newest ∷ rest) ≡ redeploy k)
decide_late now zero newest rest h = (0, refl)
decide_late now (suc n) newest rest h = (suc n, ground (arith, backoff_ms-le_max (suc n + 1)))

-- The plan never waits for more than half an hour once nothing is in flight: whatever the
-- streak, it is to redeploy when the newest deployment is that old.
pub redeploy_plan_heals :
    (newest : Deployment) (rest : List Deployment) (now listed_at : ℕ)
    → All (λ d. is_in_flight now listed_at d ≡ false) (newest ∷ rest)
    → newest.created_at + backoff_max_ms ≤ now
    → (k : ℕ) × (redeploy_plan (newest ∷ rest) now listed_at ≡ redeploy k)
unfolding redeploy_plan
redeploy_plan_heals newest rest now listed_at idle late =
    let (k, e) = decide_late now (streak_from now (newest ∷ rest)) newest rest late in
    (k, rw (any_of_All (is_in_flight now listed_at) (newest ∷ rest) idle) e)

stale_idle :
    (now listed_at : ℕ) (d : Deployment)
    → IsStale now listed_at d
    → is_in_flight now listed_at d ≡ false
stale_idle now listed_at d s = ground arith

-- A row whose job was lost cannot block healing for ever: when every deployment is an hour old
-- or more, and none finished since the listing, the plan is to redeploy.
pub redeploy_plan_stale :
    (newest : Deployment) (rest : List Deployment) (now listed_at : ℕ)
    → All (IsStale now listed_at) (newest ∷ rest)
    → (k : ℕ) × (redeploy_plan (newest ∷ rest) now listed_at ≡ redeploy k)
redeploy_plan_stale newest rest now listed_at stale =
    redeploy_plan_heals newest rest now listed_at
      (All-imp (stale_idle now listed_at) (newest ∷ rest) stale) (omega (arith, stale.0.0))
