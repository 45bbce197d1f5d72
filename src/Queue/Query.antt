-- ===== src/Queue/Query.antt =====
-- The counting, looking and cancelling statements of src/queue/index.ts.
use musdash.Prelude.{
  ℕ, ◌+◌, ◌≡◌, refl, String, Bool, true, false, ◌&&◌, Option, none, some, [], ◌∷◌, arith, str_eq,
  eq_iff, map_option, All, length,
}
use musdash.Queue.Table.{
  Job, Rows, pending, get_job, update_where, count_where, delete_where, any_row,
}
use musdash.Queue.Statements.{
  HasUniqueIds, apply_if, id-get_job, get_job-update_where, HasUniqueIds-update_where,
}
use musdash.Queue.Claim.{claim-Claimed}
use musdash.Queue.{
  claim, lease, is_runnable, recover_orphaned_leases, pending_count, active_job_count, is_rival,
  has_pending_job_after, is_deploy_of, cancel, cancel_pending_deploy, prune_finished_jobs,
}

-- Recovery returns every lease and loses no job: as many jobs are pending after it as were
-- active before it, as many are active, and it reports as many as were not pending before.
pub recover_counts :
    (t : Rows)
    → (pending_count (recover_orphaned_leases t).1 ≡ active_job_count t)
      × (active_job_count (recover_orphaned_leases t).1 ≡ active_job_count t)
      × ((recover_orphaned_leases t).0 + pending_count t ≡ active_job_count t)
unfolding recover_orphaned_leases pending_count active_job_count count_where update_where
recover_counts [] = (refl, refl, refl)
recover_counts (j ∷ t) = ground (arith, recover_counts t)

-- Pruning reports as many rows as it deletes.
pub prune_counts :
    (hours now : ℕ) (t : Rows)
    → (prune_finished_jobs hours now t).0 + length (prune_finished_jobs hours now t).1 ≡ length t
unfolding prune_finished_jobs count_where delete_where
prune_counts hours now [] = omega arith
prune_counts hours now (j ∷ t) = ground (arith, prune_counts hours now t)

-- Pruning leaves as many jobs queued or in flight as there were.
pub prune_active :
    (hours now : ℕ) (t : Rows)
    → active_job_count (prune_finished_jobs hours now t).1 ≡ active_job_count t
unfolding prune_finished_jobs active_job_count count_where delete_where
prune_active hours now [] = refl
prune_active hours now (j ∷ t) = ground (arith, prune_active hours now t)

any_row-false : (p : Job → Bool) (t : Rows) → any_row p t ≡ false → All (λ k. p k ≡ false) t
unfolding any_row
any_row-false p [] h = tt
any_row-false p (k ∷ t) h = ground (arith, any_row-false p t)

any_row_get :
    (p : Job → Bool) (t : Rows) (i : String) (j : Job)
    → any_row p t ≡ false
    → get_job i t ≡ some j
    → p j ≡ false
unfolding any_row get_job
any_row_get p [] i j h e = cc
any_row_get p (k ∷ t) i j h e = ground (arith, any_row_get p t i j)

-- For a stored job: where hasPendingJobAfter says no, no row of the table is a rival of it,
-- that is another pending job of the resource that was created when it was or later.
pub no_rival :
    (job_id resource_id : String) (t : Rows) (mine : Job)
    → get_job job_id t ≡ some mine
    → has_pending_job_after job_id resource_id t ≡ false
    → All (λ other. is_rival resource_id mine other ≡ false) t
unfolding has_pending_job_after
no_rival job_id resource_id t mine stored h = any_row-false (is_rival resource_id mine) t (
    ground (
      arith,
      any_row_get (λ x. str_eq x.id job_id && any_row (is_rival resource_id x) t) t job_id mine h
          stored,
      eq_iff mine.id job_id,
      id-get_job job_id t mine stored,
    ))

not_cancelled :
    (d : String) (now : ℕ) (o : Option Job) (before job : Job)
    → map_option (apply_if (is_deploy_of d) cancel) o ≡ some before
    → is_runnable now before ≡ true
    → job ≡ lease now before
    → is_deploy_of d (record job { status = pending }) ≡ false
not_cancelled d now none before job h r e = cc
not_cancelled d now (some j) before job h r e = ground arith

module _ (deployment_id : String) where
  -- In a table with unique ids: after a cancel no claim, at any time, returns a job that was a
  -- deploy of that deployment when it was pending.
  pub claim-cancel :
      (now : ℕ) (t : Rows) (job : Job)
      → HasUniqueIds t
      → (claim now (cancel_pending_deploy deployment_id t).1).0 ≡ some job
      → is_deploy_of deployment_id (record job { status = pending }) ≡ false
  unfolding cancel_pending_deploy
  claim-cancel now t job u h =
      let u' = HasUniqueIds-update_where (is_deploy_of deployment_id) cancel (λ j. refl) t u in
      let c = claim-Claimed now (cancel_pending_deploy deployment_id t).1 job u' h in
      not_cancelled deployment_id now (get_job job.id t) c.before job
        (rw (← get_job-update_where (is_deploy_of deployment_id) cancel (λ j. refl) job.id t)
          c.stored)
        c.runnable c.leased_from

  -- In a table with unique ids: a cancel that comes after a claim leaves the claimed row as the
  -- claim wrote it.
  pub cancel-claim :
      (now : ℕ) (t : Rows) (job : Job)
      → HasUniqueIds t
      → (claim now t).0 ≡ some job
      → get_job job.id (cancel_pending_deploy deployment_id (claim now t).1).1 ≡ some job
  unfolding cancel_pending_deploy
  cancel-claim now t job u h =
      let c = claim-Claimed now t job u h in
      rw
        (
          get_job-update_where (is_deploy_of deployment_id) cancel (λ j. refl) job.id
              (claim now t).1,
          c.rows job.id,
          (eq_iff job.id job.id).1 refl,
        )
        (ground (arith, c.leased_from))
