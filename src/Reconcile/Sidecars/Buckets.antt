-- ===== src/Reconcile/Sidecars/Buckets.antt =====
-- One bootstrap of the proxy in each window of time (src/reconciler.ts).
use musdash.Prelude.{
  ℕ, ◌/◌, ◌≡◌, refl, sym, ap, ◌∙◌, String, Option, none, some, List, [], ◌∷◌, ◌++◌, if◌then◌else◌,
  inl, inr, Bool-cases, All, str_eq, eq_iff,
}
use mathlib.Core.Option.{none-ne-some}
use Prim.Native.String.{◌++◌ as ◌+s◌}
use musdash.Prelude.Show.{show}
use musdash.Queue.Table.{Job, Rows, get_job}
use musdash.Queue.{new_job, enqueue}
use musdash.Reconcile.Sidecars.{
  Tick, caddy_job_bucket_ms, bootstrap_options, caddy_job_id, queue_caddy_bootstrap, caddy_needed,
  ensure_caddy_queued, caddy_ticks,
}

get_job-append :
    (i : String) (t : Rows) (j : Job)
    → get_job i t ≡ none
    → j.id ≡ i
    → get_job i (t ++ (j ∷ [])) ≡ some j
unfolding get_job
get_job-append i [] j h e = rw ((eq_iff j.id i).1 e) refl
get_job-append i (k ∷ t) j h e = elim (Bool-cases (str_eq k.id i)) [
  | inl f ↦ absurd (none-ne-some _ (sym (rw f at h)))
  | inr f ↦ rw f (get_job-append i t j (rw f at h) e)
]

-- The row that a bootstrap asked for at a tick inserts.
abbrev pub caddy_job : String → Tick → Job
caddy_job id t = new_job "ensure_caddy" [] (bootstrap_options id) t.fresh t.now

-- The first tick that finds the proxy down or silent.
module _ (nonce : String) where
  abbrev pub first_needed : List Tick → Option Tick
  first_needed [] = none
  first_needed (t ∷ ts) = if caddy_needed nonce t.found t.answers then some t else first_needed ts

  abbrev pub with_bootstrap : String → Rows → Option Tick → Rows
  with_bootstrap id rows none = rows
  with_bootstrap id rows (some t) = rows ++ (caddy_job id t ∷ [])

  queue-present :
      (t : Tick) (rows : Rows) (j : Job)
      → get_job (caddy_job_id nonce t.now) rows ≡ some j
      → queue_caddy_bootstrap nonce t.now t.fresh rows ≡ rows
  unfolding queue_caddy_bootstrap enqueue
  queue-present t rows j e = rw e refl

  queue-absent :
      (t : Tick) (rows : Rows)
      → get_job (caddy_job_id nonce t.now) rows ≡ none
      → queue_caddy_bootstrap nonce t.now t.fresh rows
        ≡ rows ++ (caddy_job (caddy_job_id nonce t.now) t ∷ [])
  unfolding queue_caddy_bootstrap enqueue
  queue-absent t rows e = rw e refl

  ticks-present :
      (id : String) (ts : List Tick) (rows : Rows) (j : Job)
      → All (λ t. caddy_job_id nonce t.now ≡ id) ts
      → get_job id rows ≡ some j
      → caddy_ticks nonce ts rows ≡ rows
  unfolding caddy_ticks ensure_caddy_queued
  ticks-present id [] rows j h e = refl
  ticks-present id (t ∷ ts) rows j h e = elim (Bool-cases (caddy_needed nonce t.found t.answers)) [
    | inr f ↦ rw f (ticks-present id ts rows j h.1 e)
    | inl f ↦ rw f (
        ap (caddy_ticks nonce ts) (queue-present t rows j (ap (λ i. get_job i rows) h.0 ∙ e))
        ∙ ticks-present id ts rows j h.1 e)
  ]

  ticks-absent :
      (id : String) (ts : List Tick) (rows : Rows)
      → All (λ t. caddy_job_id nonce t.now ≡ id) ts
      → get_job id rows ≡ none
      → caddy_ticks nonce ts rows ≡ with_bootstrap id rows (first_needed ts)
  unfolding caddy_ticks ensure_caddy_queued
  ticks-absent id [] rows h e = refl
  ticks-absent id (t ∷ ts) rows h e = elim (Bool-cases (caddy_needed nonce t.found t.answers)) [
    | inr f ↦ rw f (ticks-absent id ts rows h.1 e)
    | inl f ↦ rw f (
        ap (caddy_ticks nonce ts) (
          queue-absent t rows (ap (λ i. get_job i rows) h.0 ∙ e)
          ∙ ap (λ i. rows ++ (caddy_job i t ∷ [])) h.0)
        ∙ ticks-present id ts (rows ++ (caddy_job id t ∷ [])) (caddy_job id t) h.1
            (get_job-append id rows (caddy_job id t) e refl))
  ]

  same_bucket :
      (b : ℕ) (ts : List Tick)
      → All (λ t. t.now / caddy_job_bucket_ms ≡ b) ts
      → All (λ t. caddy_job_id nonce t.now ≡ "ensure-caddy-" +s nonce +s "-" +s show b) ts
  unfolding caddy_job_id
  same_bucket b [] h = tt
  same_bucket b (t ∷ ts) h =
      (ap (λ n. "ensure-caddy-" +s nonce +s "-" +s show n) h.0, same_bucket b ts h.1)

  -- Of all the passes in one window of five minutes, the first that finds the proxy down or silent
  -- adds its bootstrap job to the table, and no other adds anything; with no such pass the table stays
  -- as it is. The table has no job of this process and window before.
  pub one_bootstrap_per_bucket :
      (b : ℕ) (ts : List Tick) (rows : Rows)
      → All (λ t. t.now / caddy_job_bucket_ms ≡ b) ts
      → get_job ("ensure-caddy-" +s nonce +s "-" +s show b) rows ≡ none
      → caddy_ticks nonce ts rows
        ≡ with_bootstrap ("ensure-caddy-" +s nonce +s "-" +s show b) rows (first_needed ts)
  one_bootstrap_per_bucket b ts rows h e = ticks-absent _ ts rows (same_bucket b ts h) e
