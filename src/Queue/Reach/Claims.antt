-- ===== src/Queue/Reach/Claims.antt =====
-- How often a job is claimed (src/queue/index.ts, src/queue/worker.ts).
use mathlib.Core.Option.{some-injective}
use musdash.Prelude.{
  ℕ, ◌+◌, ◌≤◌, ◌-◌, ◌*◌, ◌≡◌, refl, sym, ◌∙◌, ap, inl, inr, String, Bool, false, Option, none, some,
  [], ◌∷◌, arith, str_eq, eq_iff, if◌then◌else◌, Bool-cases, Option-cases, max, map_option,
}
use musdash.Queue.Table.{Job, Rows, is_leased, get_job, update_where}
use musdash.Queue.Statements.{
  HasUniqueIds, KeepsId, get_job-append, get_job-update_where, get_job-delete_where, apply_if,
  or_job,
}
use musdash.Queue.{
  has_id, new_job, enqueue, claim, finish, complete, release, cancel, is_deploy_of, fail,
  recover_orphaned_leases, cancel_pending_deploy, is_prunable, prune_finished_jobs,
}
use musdash.Queue.Claim.{claim-Claimed, claim-none_iff}
use musdash.Queue.Outcome.{after_failure, fail_lem, fail_missing}
use musdash.Queue.Reach.{
  World, Step, Reach, enqueues, claims, completes, fails, forgets, cancels, prunes, restarts, here,
  next, start,
}
use musdash.Queue.Reach.Lifecycle.{insert_job_inv, keep_unless_inv}
use musdash.Queue.Reach.Invariant.{none-ne-some, Reach-Inv, attempts_bounded}

abbrev is_claim_of : String → Option Job → Bool
is_claim_of k none = false
is_claim_of k (some job) = str_eq job.id k

-- The count of the claims of one id, after a step. A row that is inserted is a new job.
abbrev count_after : String → (w v : World) → Step w v → ℕ → ℕ
count_after k w v (enqueues type payload opts fresh i now t e s) n = if str_eq i k then 0 else n
count_after k w v (claims now r s) n = if is_claim_of k (claim now w.rows).0 then n + 1 else n
count_after k w v (completes i r s) n = n
count_after k w v (fails i error now r s) n = n
count_after k w v (forgets r s) n = n
count_after k w v (cancels d s) n = n
count_after k w v (prunes hours now s) n = n
count_after k w v (restarts s) n = n

-- How many of the steps were claims that returned the job with an id, since its row was inserted.
abbrev pub times_claimed : String → (w : World) → Reach start w → ℕ
times_claimed k w here = 0
times_claimed k w (next {u = u} r st) = count_after k u w st (times_claimed k u r)

module _ (k : String) (n : ℕ) where
  abbrev Counts : Rows → Type 0
  Counts t = (j : Job) → get_job k t ≡ some j → n ≡ j.attempts

  updated-Counts :
      (p : Job → Bool) (f : Job → Job) (o : Option Job) (j' : Job)
      → ((j : Job) → (f j).attempts ≡ j.attempts)
      → ((j : Job) → o ≡ some j → n ≡ j.attempts)
      → map_option (apply_if p f) o ≡ some j'
      → n ≡ j'.attempts
  updated-Counts p f none j' keeps h e = absurd (none-ne-some j' e)
  updated-Counts p f (some j) j' keeps h e = elim (Bool-cases (p j)) [
    | inl holds ↦
        h j refl ∙ sym (keeps j) ∙ ap (λ x. x.attempts) (some-injective _ _ (rw holds at e))
    | inr not_p ↦ h j refl ∙ ap (λ x. x.attempts) (some-injective _ _ (rw not_p at e))
  ]

  update-Counts :
      (p : Job → Bool) (f : Job → Job) (keeps : KeepsId f) (t : Rows) (j' : Job)
      → ((j : Job) → (f j).attempts ≡ j.attempts)
      → Counts t
      → get_job k (update_where p f t) ≡ some j'
      → n ≡ j'.attempts
  update-Counts p f keeps t j' same h e =
      updated-Counts p f (get_job k t) j' same h (rw (get_job-update_where p f keeps k t) at e)

  fail-Counts :
      (i error : String) (now : ℕ) (t : Rows) (j' : Job)
      → Counts t
      → get_job k (fail i error now t).1 ≡ some j'
      → n ≡ j'.attempts
  fail-Counts i error now t j' h e = elim (Option-cases (get_job i t)) [
    | inl missing ↦ h j' (rw (fail_missing i error now t missing) at e)
    | inr (j, stored) ↦
        let written : (if str_eq i k then some (after_failure error now j) else get_job k t)
            ≡ some j' =
          sym ((fail_lem i error now t j stored).1 k) ∙ e in
        elim (Bool-cases (str_eq i k)) [
          | inl same ↦
              let there : get_job k t ≡ some j = rw (← (eq_iff i k).0 same) stored in
              let after : after_failure error now j ≡ j' =
                some-injective _ _ (rw same at written) in
              h j there ∙ ground arith
          | inr other ↦ h j' (rw other at written)
        ]
  ]

  claim-Counts :
      (now : ℕ) (t : Rows) (o : Option Job) (j' : Job)
      → HasUniqueIds t
      → (claim now t).0 ≡ o
      → Counts t
      → get_job k (claim now t).1 ≡ some j'
      → (if is_claim_of k o then n + 1 else n) ≡ j'.attempts
  claim-Counts now t none j' u c h e = h j' (rw ((claim-none_iff now t).0 c).1 at e)
  claim-Counts now t (some job) j' u c h e =
      let done = claim-Claimed now t job u c in
      let written : (if str_eq job.id k then some job else get_job k t) ≡ some j' =
        sym (done.rows k) ∙ e in
      elim (Bool-cases (str_eq job.id k)) [
        | inl same ↦
            let there : get_job k t ≡ some done.before =
              rw (← (eq_iff job.id k).0 same) done.stored in
            let this : job ≡ j' = some-injective _ _ (rw same at written) in
            let one_more : job.attempts ≡ done.before.attempts + 1 =
              ap (λ x. x.attempts) done.leased_from in
            rw same
              (ap (λ m. m + 1) (h done.before there) ∙ sym one_more ∙ ap (λ x. x.attempts) this)
        | inr other ↦ rw other (h j' (rw other at written))
      ]

  appended-Counts :
      (new : Job) (t : Rows) (j' : Job)
      → new.attempts ≡ 0
      → get_job new.id t ≡ none
      → Counts t
      → or_job (get_job k t) (get_job k (new ∷ [])) ≡ some j'
      → (if str_eq new.id k then 0 else n) ≡ j'.attempts
  unfolding get_job
  appended-Counts new t j' zero_attempts vacant h e = elim (Bool-cases (str_eq new.id k)) [
    | inl same ↦
        let free : get_job k t ≡ none = rw (← (eq_iff new.id k).0 same) vacant in
        let this : new ≡ j' = some-injective _ _ (rw (free, same) at e) in
        rw same (sym zero_attempts ∙ ap (λ x. x.attempts) this)
    | inr other ↦ elim (Option-cases (get_job k t)) [
      | inl free ↦ absurd (none-ne-some j' (rw (free, other) at e))
      | inr (j, stored) ↦
          rw other (h j stored ∙ ap (λ x. x.attempts) (some-injective _ _ (rw stored at e)))
    ]
  ]

Step-Counts :
    (w v : World) (k : String) (n : ℕ) (st : Step w v) (j' : Job)
    → HasUniqueIds w.rows
    → Counts k n w.rows
    → get_job k v.rows ≡ some j'
    → count_after k w v st n ≡ j'.attempts
unfolding enqueue complete cancel_pending_deploy recover_orphaned_leases prune_finished_jobs
Step-Counts w v k n (enqueues type payload opts fresh i now t e s) j' u h stored =
    let new = new_job type payload opts fresh now in
    let (vacant, same, own) = insert_job_inv (get_job new.id w.rows) new w.rows i t e in
    rw own (
      appended-Counts k n new w.rows j' refl vacant h
        (rw (← get_job-append k w.rows (new ∷ [])) (rw (s, same) at stored)))
Step-Counts w v k n (claims now r s) j' u h stored =
    claim-Counts k n now w.rows (claim now w.rows).0 j' u refl h (rw s at stored)
Step-Counts w v k n (completes i r s) j' u h stored =
    update-Counts k n (has_id i) finish (λ j. refl) w.rows j' (λ j. refl) h (rw s at stored)
Step-Counts w v k n (fails i error now r s) j' u h stored =
    fail-Counts k n i error now w.rows j' h (rw s at stored)
Step-Counts w v k n (forgets r s) j' u h stored = h j' (rw s at stored)
Step-Counts w v k n (cancels d s) j' u h stored =
    update-Counts k n (is_deploy_of d) cancel (λ j. refl) w.rows j' (λ j. refl) h (rw s at stored)
Step-Counts w v k n (prunes hours now s) j' u h stored =
    let p = is_prunable (now - hours * 3600 * 1000) in
    h j' (
      keep_unless_inv p (get_job k w.rows) j' (rw (s, get_job-delete_where p k w.rows u) at stored))
Step-Counts w v k n (restarts s) j' u h stored =
    update-Counts k n (λ j. is_leased j.status) release (λ j. refl) w.rows j' (λ j. refl) h
      (rw s at stored)

-- The attempts of a stored job are the claims that returned it.
pub times_claimed-attempts :
    (w : World) (k : String) (r : Reach start w) (j : Job)
    → get_job k w.rows ≡ some j
    → times_claimed k w r ≡ j.attempts
unfolding get_job
times_claimed-attempts w k here j h = absurd (none-ne-some j h)
times_claimed-attempts w k (next {u = u} r st) j h =
    Step-Counts u w k (times_claimed k u r) st j (Reach-Inv u r).unique
      (times_claimed-attempts u k r) h

-- In any sequence of steps from an empty queue, the claims that returned a job since its row was
-- inserted are, as long as the row is there, no more than its max_attempts (at least one) plus the
-- number of restarts, and its attempts column is their number.
pub claims_bounded :
    (w : World) (k : String) (j : Job) (r : Reach start w)
    → get_job k w.rows ≡ some j
    → (times_claimed k w r ≤ max j.max_attempts 1 + w.recoveries)
      × (times_claimed k w r ≡ j.attempts)
claims_bounded w k j r h =
    let counted = times_claimed-attempts w k r j h in
    (rw counted (attempts_bounded w k j r h), counted)
