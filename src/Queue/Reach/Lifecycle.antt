-- ===== src/Queue/Reach/Lifecycle.antt =====
-- What one step of the queue can do to one row: the life of a job (src/queue/index.ts).
use musdash.Prelude.{
  ℕ, suc, ◌-◌, ◌*◌, ◌≡◌, ◌≢◌, refl, subst, sym, ap, ◌⊎◌, inl, inr, String, Bool, true, Option, none,
  some, [], ◌∷◌, ◌++◌, arith, if◌then◌else◌, str_eq, eq_iff, map_option, Bool-cases, Option-cases,
}
use mathlib.Core.Option.{some-injective}
use musdash.Queue.Fields.{Payload}
use musdash.Queue.Table.{Job, Rows, pending, leased, is_leased, get_job, update_where}
use musdash.Queue.Statements.{
  HasUniqueIds, id-get_job, or_job, get_job-append, get_job-update_where, get_job-delete_where,
  keep_unless, KeepsId, apply_if,
}
use musdash.Queue.{
  has_id, EnqueueOptions, new_job, insert_job, enqueue, lease, claim, finish, complete, release,
  cancel, is_deploy_of, fail, recover_orphaned_leases, cancel_pending_deploy, is_prunable,
  prune_finished_jobs,
}
use musdash.Queue.Claim.{claim-Claimed, claim-none_iff}
use musdash.Queue.Outcome.{after_failure, fail_lem, fail_missing}
use musdash.Queue.Reach.{
  World, id_of, Step, enqueues, claims, completes, fails, forgets, cancels, prunes, restarts,
}

-- The transitions of a stored row.
pub data Evolves (w v : World) (j j' : Job) : Type 0 where
  kept : j' ≡ j → Evolves w v j j'
  taken :
      (now : ℕ) → j.status ≡ pending → v.running ≡ some j.id → j' ≡ lease now j → Evolves w v j j'
  finished : w.running ≡ some j.id → j' ≡ finish j → Evolves w v j j'
  failed_at :
      (error : String) (now : ℕ)
      → w.running ≡ some j.id
      → j' ≡ after_failure error now j
      → Evolves w v j j'
  released : j.status ≡ leased → v.recoveries ≡ suc w.recoveries → j' ≡ release j → Evolves w v j j'
  stopped : j.status ≡ pending → j' ≡ cancel j → Evolves w v j j'

-- A row of the later table is new, pending and never tried, or comes from a row by one transition.
abbrev pub Origin : World → World → String → Job → Type 0
Origin w v k j' =
    ((get_job k w.rows ≡ none) × (j'.status ≡ pending) × (j'.attempts ≡ 0))
    ⊎ ((j : Job) × (get_job k w.rows ≡ some j) × Evolves w v j j')

Origin-kept : (w v : World) (k : String) (j' : Job) → get_job k w.rows ≡ some j' → Origin w v k j'
Origin-kept w v k j' h = inr (j', h, kept refl)

some-ne-none : (j : Job) → some j ≢ none
some-ne-none j e = cc

module _ (w v : World) (k : String) (j' : Job) where
  Origin-map :
      (g : Job → Job) (o : Option Job)
      → get_job k w.rows ≡ o
      → ((j : Job) → get_job k w.rows ≡ some j → Evolves w v j (g j))
      → map_option g o ≡ some j'
      → Origin w v k j'
  Origin-map g none e evolves h = absurd (some-ne-none j' (sym h))
  Origin-map g (some j) e evolves h =
      inr (j, e, subst (Evolves w v j) (some-injective _ _ h) (evolves j e))

  -- A table that differs by an update under a condition on the row.
  Origin-update_where :
      (p : Job → Bool) (f : Job → Job) (keeps : KeepsId f)
      → ((j : Job) → get_job k w.rows ≡ some j → p j ≡ true → Evolves w v j (f j))
      → get_job k (update_where p f w.rows) ≡ some j'
      → Origin w v k j'
  Origin-update_where p f keeps evolves h =
      Origin-map (apply_if p f) (get_job k w.rows) refl
        (λ j e. elim (Bool-cases (p j)) [
          | inl holds ↦ rw holds (evolves j e holds)
          | inr fails_p ↦ rw fails_p (kept refl)
        ])
        (rw (get_job-update_where p f keeps k w.rows) at h)

  -- A row that one id's write set, or that was there.
  Origin-write :
      (i : String) (j new : Job)
      → get_job i w.rows ≡ some j
      → Evolves w v j new
      → (if str_eq i k then some new else get_job k w.rows) ≡ some j'
      → Origin w v k j'
  Origin-write i j new stored evolves h = elim (Bool-cases (str_eq i k)) [
    | inl same ↦ inr (
      j,
      rw (← (eq_iff i k).0 same) stored,
      subst (Evolves w v j) (some-injective _ _ (rw same at h)) evolves,
    )
    | inr other ↦ Origin-kept w v k j' (rw other at h)
  ]

pub insert_job_inv :
    (o : Option Job) (j : Job) (t : Rows) (i : String) (u : Rows)
    → insert_job o j t ≡ some (i, u)
    → (o ≡ none) × (u ≡ t ++ j ∷ []) × (i ≡ j.id)
insert_job_inv none j t i u h = ground arith
insert_job_inv (some k) j t i u h = cc

pub keep_unless_inv :
    (p : Job → Bool) (o : Option Job) (j : Job) → keep_unless p o ≡ some j → o ≡ some j
keep_unless_inv p none j h = cc
keep_unless_inv p (some k) j h = ground arith

Origin-appended :
    (w v : World) (k : String) (j' : Job) (type : String) (payload : Payload)
    (opts : EnqueueOptions) (fresh : String) (now : ℕ) (o : Option Job)
    → get_job k w.rows ≡ o
    → or_job o (get_job k (new_job type payload opts fresh now ∷ [])) ≡ some j'
    → Origin w v k j'
unfolding get_job
Origin-appended w v k j' type payload opts fresh now none e h = inl (e, ground arith, ground arith)
Origin-appended w v k j' type payload opts fresh now (some j) e h = Origin-kept w v k j' (rw e h)

module _ (w : World) (k : String) (j' : Job) (u : HasUniqueIds w.rows) where
  Origin-enqueue :
      (type : String) (payload : Payload) (opts : EnqueueOptions) (fresh i : String) (now : ℕ)
      (t : Rows) (v : World)
      → enqueue type payload opts fresh now w.rows ≡ some (i, t)
      → get_job k t ≡ some j'
      → Origin w v k j'
  unfolding enqueue
  Origin-enqueue type payload opts fresh i now t v e h =
      let j = new_job type payload opts fresh now in
      let (vacant, same, _) = insert_job_inv (get_job j.id w.rows) j w.rows i t e in
      Origin-appended w v k j' type payload opts fresh now (get_job k w.rows) refl
        (rw (← get_job-append k w.rows (j ∷ [])) (rw same at h))

  Origin-claim :
      (now : ℕ) (v : World) (o : Option Job)
      → (claim now w.rows).0 ≡ o
      → v.running ≡ id_of o
      → get_job k (claim now w.rows).1 ≡ some j'
      → Origin w v k j'
  Origin-claim now v none e r h = Origin-kept w v k j' (rw ((claim-none_iff now w.rows).0 e).1 at h)
  Origin-claim now v (some job) e r h =
      let c = claim-Claimed now w.rows job u e in
      Origin-write w v k j' job.id c.before job c.stored
        (taken now (ground (arith, c.runnable)) (rw r (ap some (ground (arith, c.leased_from))))
          c.leased_from)
        (rw (← c.rows k) h)

  Origin-fail :
      (i error : String) (now : ℕ) (v : World)
      → w.running ≡ some i
      → get_job k (fail i error now w.rows).1 ≡ some j'
      → Origin w v k j'
  Origin-fail i error now v r h = elim (Option-cases (get_job i w.rows)) [
    | inl e ↦ Origin-kept w v k j' (rw (fail_missing i error now w.rows e) at h)
    | inr (j, e) ↦
        Origin-write w v k j' i j (after_failure error now j) e
          (failed_at error now (rw (id-get_job i w.rows j e) r) refl)
          (rw (← (fail_lem i error now w.rows j e).1 k) h)
  ]

-- From unique ids, every row after a step is new, pending and never tried, or comes from the
-- row of the same id by one transition: it is unchanged, leased from pending to be the worker's
-- running job, finished or failed while its job was running, released from a lease by a
-- restart, or cancelled from pending.
pub Step-Origin :
    (w v : World) (k : String) (j' : Job)
    → HasUniqueIds w.rows
    → Step w v
    → get_job k v.rows ≡ some j'
    → Origin w v k j'
unfolding complete cancel_pending_deploy recover_orphaned_leases prune_finished_jobs
Step-Origin w v k j' u (enqueues type payload opts fresh i now t e s) h =
    Origin-enqueue w k j' u type payload opts fresh i now t v e (rw s at h)
Step-Origin w v k j' u (claims now r s) h =
    Origin-claim w k j' u now v (claim now w.rows).0 refl (rw s) (rw s at h)
Step-Origin w v k j' u (completes i r s) h =
    Origin-update_where w v k j' (has_id i) finish (λ j. refl)
      (λ j e same. finished (rw ((eq_iff j.id i).0 same) r) refl) (rw s at h)
Step-Origin w v k j' u (fails i error now r s) h = Origin-fail w k j' u i error now v r (rw s at h)
Step-Origin w v k j' u (forgets r s) h = Origin-kept w v k j' (rw s at h)
Step-Origin w v k j' u (cancels deployment_id s) h =
    Origin-update_where w v k j' (is_deploy_of deployment_id) cancel (λ j. refl)
      (λ j e deploy. stopped (ground arith) refl) (rw s at h)
Step-Origin w v k j' u (prunes hours now s) h =
    let p = is_prunable (now - hours * 3600 * 1000) in
    Origin-kept w v k j'
      (keep_unless_inv p (get_job k w.rows) j' (rw (s, get_job-delete_where p k w.rows u) at h))
Step-Origin w v k j' u (restarts s) h =
    Origin-update_where w v k j' (λ j. is_leased j.status) release (λ j. refl)
      (λ j e held. released (ground arith) (rw s) refl) (rw s at h)
