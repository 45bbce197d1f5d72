-- ===== src/Queue/Reach/Invariant.antt =====
-- What holds of the queue after any steps (src/queue/index.ts, src/queue/worker.ts).
use mathlib.Core.Option.{some-injective}
use musdash.Prelude.{
  ℕ, ◌+◌, ◌≤◌, ◌<◌, ◌-◌, ◌*◌, ◌≡◌, ◌≢◌, refl, subst, sym, ◌∙◌, inl, inr, String, Option, none, some,
  [], ◌∷◌, arith, eq_iff, Bool-cases, max, leb,
}
use musdash.Queue.Table.{Job, Rows, pending, leased, get_job, oldest_where}
use musdash.Queue.Statements.{
  HasUniqueIds, get_job-append, get_job-update_where, get_job-delete_where, HasUniqueIds-append,
  HasUniqueIds-update_where, HasUniqueIds-delete_where, id-get_job,
}
use musdash.Queue.{
  new_job, enqueue, is_runnable, is_deploy_of, cancel, claim, claim_row, complete, fail, fail_row,
  cancel_pending_deploy, recover_orphaned_leases, prune_finished_jobs, is_prunable,
}
use musdash.Queue.Claim.{claim-Claimed}
use musdash.Queue.Reach.{
  World, id_of, Step, Reach, enqueues, claims, completes, fails, forgets, cancels, prunes, restarts,
  here, next, start,
}
use musdash.Queue.Reach.Lifecycle.{
  Evolves, kept, taken, finished, failed_at, released, stopped, Origin, Step-Origin, insert_job_inv,
}

-- The attempts that a job has when there is no restart: at least one.
abbrev pub allowance : Job → ℕ
allowance j = max j.max_attempts 1

-- A restart gives a leased job its lease back without counting the attempt as a failure.
pub none-ne-some {ℓ} : {A : Type ℓ} (a : A) → none ≢ some a
none-ne-some a e = cc

pub record RowOk (w : World) (j : Job) : Type 0 where
  pub bounded : j.attempts ≤ allowance j + w.recoveries
  pub waiting : j.status ≡ pending → j.attempts < allowance j + w.recoveries

pub record Inv (w : World) : Type 0 where
  pub unique : HasUniqueIds w.rows
  pub row : (k : String) (j : Job) → get_job k w.rows ≡ some j → RowOk w j
  pub active :
      (i : String)
      → w.running ≡ some i
      → (j : Job) × (get_job i w.rows ≡ some j) × (j.status ≡ leased)

claim_row_unique :
    (now : ℕ) (t : Rows) (o : Option Job) → HasUniqueIds t → HasUniqueIds (claim_row now t o).1
claim_row_unique now t none u = u
claim_row_unique now t (some j) u = HasUniqueIds-update_where _ _ (λ k. refl) t u

fail_row_unique :
    (i error : String) (now : ℕ) (t : Rows) (o : Option Job)
    → HasUniqueIds t
    → HasUniqueIds (fail_row i error now t o).1
fail_row_unique i error now t none u = u
fail_row_unique i error now t (some j) u = elim (Bool-cases (leb j.max_attempts j.attempts)) [
  | inl out ↦ rw out (HasUniqueIds-update_where _ _ (λ k. refl) t u)
  | inr room ↦ rw room (HasUniqueIds-update_where _ _ (λ k. refl) t u)
]

Step-unique : (w v : World) → HasUniqueIds w.rows → Step w v → HasUniqueIds v.rows
unfolding enqueue claim complete fail cancel_pending_deploy recover_orphaned_leases
    prune_finished_jobs
Step-unique w v u (enqueues type payload opts fresh i now t e s) =
    let j = new_job type payload opts fresh now in
    let (vacant, same, _) = insert_job_inv (get_job j.id w.rows) j w.rows i t e in
    rw (s, same) (HasUniqueIds-append w.rows j u vacant)
Step-unique w v u (claims now r s) =
    rw s (claim_row_unique now w.rows (oldest_where (is_runnable now) w.rows) u)
Step-unique w v u (completes i r s) = rw s (HasUniqueIds-update_where _ _ (λ j. refl) w.rows u)
Step-unique w v u (fails i error now r s) =
    rw s (fail_row_unique i error now w.rows (get_job i w.rows) u)
Step-unique w v u (forgets r s) = rw s u
Step-unique w v u (cancels d s) = rw s (HasUniqueIds-update_where _ _ (λ j. refl) w.rows u)
Step-unique w v u (prunes hours now s) = rw s (HasUniqueIds-delete_where _ w.rows u)
Step-unique w v u (restarts s) = rw s (HasUniqueIds-update_where _ _ (λ j. refl) w.rows u)

Step-recoveries : (w v : World) → Step w v → w.recoveries ≤ v.recoveries
Step-recoveries w v (enqueues type payload opts fresh i now t e s) = ground arith
Step-recoveries w v (claims now r s) = ground arith
Step-recoveries w v (completes i r s) = ground arith
Step-recoveries w v (fails i error now r s) = ground arith
Step-recoveries w v (forgets r s) = ground arith
Step-recoveries w v (cancels d s) = ground arith
Step-recoveries w v (prunes hours now s) = ground arith
Step-recoveries w v (restarts s) = ground arith

-- One transition keeps the bound on attempts.
Evolves-RowOk :
    (w v : World) (j j' : Job)
    → w.recoveries ≤ v.recoveries
    → (w.running ≡ some j.id → j.status ≡ leased)
    → RowOk w j
    → Evolves w v j j'
    → RowOk v j'
Evolves-RowOk w v j j' m active ok (kept e) = ground arith
Evolves-RowOk w v j j' m active ok (taken now p r e) = ground arith
Evolves-RowOk w v j j' m active ok (finished r e) = ground arith
Evolves-RowOk w v j j' m active ok (failed_at error now r e) = ground arith
Evolves-RowOk w v j j' m active ok (released l r e) = ground arith
Evolves-RowOk w v j j' m active ok (stopped p e) = ground arith

-- The running job's row is there and leased.
abbrev Active : World → Type 0
Active w =
    (i : String)
    → w.running ≡ some i
    → (j : Job) × (get_job i w.rows ≡ some j) × (j.status ≡ leased)

idle-Active : (w : World) → w.running ≡ none → Active w
idle-Active w e i r = absurd (none-ne-some i (sym e ∙ r))

claimed-Active :
    (now : ℕ) (w v : World) (o : Option Job)
    → HasUniqueIds w.rows
    → (claim now w.rows).0 ≡ o
    → v.running ≡ id_of o
    → v.rows ≡ (claim now w.rows).1
    → Active v
claimed-Active now w v none u e r s i q = idle-Active v r i q
claimed-Active now w v (some job) u e r s i q =
    let c = claim-Claimed now w.rows job u e in
    let same : job.id ≡ i = some-injective _ _ (sym r ∙ q) in
    (job, rw (s, c.rows i, ← same, (eq_iff job.id job.id).1 refl), ground (arith, c.leased_from))

Step-Active : (w v : World) → Inv w → Step w v → Active v
unfolding enqueue cancel_pending_deploy prune_finished_jobs
Step-Active w v inv (enqueues type payload opts fresh i now t e s) k r =
    let new = new_job type payload opts fresh now in
    let (vacant, same, _) = insert_job_inv (get_job new.id w.rows) new w.rows i t e in
    let (j, stored, held) = inv.active k (rw s at r) in
    (j, rw (s, same, get_job-append k w.rows (new ∷ []), stored), held)
Step-Active w v inv (claims now r s) k q =
    claimed-Active now w v (claim now w.rows).0 inv.unique refl (rw s) (rw s) k q
Step-Active w v inv (completes i r s) k q = idle-Active v (rw s) k q
Step-Active w v inv (fails i error now r s) k q = idle-Active v (rw s) k q
Step-Active w v inv (forgets r s) k q = idle-Active v (rw s) k q
Step-Active w v inv (cancels d s) k r =
    let (j, stored, held) = inv.active k (rw s at r) in
    (
      j,
      rw (s, get_job-update_where (is_deploy_of d) cancel (λ x. refl) k w.rows, stored)
          (ground arith),
      held,
    )
Step-Active w v inv (prunes hours now s) k r =
    let (j, stored, held) = inv.active k (rw s at r) in
    let p = is_prunable (now - hours * 3600 * 1000) in
    (j, rw (s, get_job-delete_where p k w.rows inv.unique, stored) (ground arith), held)
Step-Active w v inv (restarts s) k q = idle-Active v (rw s) k q

pub held_of_running :
    (w : World) (k : String) (j : Job)
    → Inv w
    → get_job k w.rows ≡ some j
    → w.running ≡ some j.id
    → j.status ≡ leased
held_of_running w k j inv stored r =
    let (j₂, stored₂, held) = inv.active j.id r in
    let there : get_job j.id w.rows ≡ some j =
      subst (λ i. get_job i w.rows ≡ some j) (sym (id-get_job k w.rows j stored)) stored in
    let same : j₂ ≡ j = some-injective _ _ (sym stored₂ ∙ there) in
    subst (λ x. x.status ≡ leased) same held

origin_RowOk :
    (w v : World) (k : String) (j' : Job)
    → Inv w
    → w.recoveries ≤ v.recoveries
    → Origin w v k j'
    → RowOk v j'
origin_RowOk w v k j' inv m (inl (fresh, p, a)) = ground arith
origin_RowOk w v k j' inv m (inr (j, stored, ev)) =
    Evolves-RowOk w v j j' m (held_of_running w k j inv stored) (inv.row k j stored) ev

pub Step-Inv : (w v : World) → Inv w → Step w v → Inv v
Step-Inv w v inv st = record {
  unique = Step-unique w v inv.unique st;
  row = λ k j h.
      origin_RowOk w v k j inv (Step-recoveries w v st) (Step-Origin w v k j inv.unique st h);
  active = Step-Active w v inv st;
}

start-Inv : Inv start
unfolding get_job
start-Inv = record {
  unique = tt;
  row = λ k j h. absurd (none-ne-some j h);
  active = idle-Active start refl;
}

pub Reach-Inv : (w : World) → Reach start w → Inv w
Reach-Inv w here = start-Inv
Reach-Inv w (next {u = u} r st) = Step-Inv u w (Reach-Inv u r) st

-- After any steps from an empty queue, the attempts column of a job is at most its max_attempts (at
-- least one) plus the number of restarts.
pub attempts_bounded :
    (w : World) (k : String) (j : Job)
    → Reach start w
    → get_job k w.rows ≡ some j
    → j.attempts ≤ max j.max_attempts 1 + w.recoveries
attempts_bounded w k j r h = ((Reach-Inv w r).row k j h).bounded

-- After any steps from an empty queue, the attempts column of a job that waits is below its
-- max_attempts (at least one) plus the number of restarts: it has an attempt left by that count.
pub waiting_has_attempt :
    (w : World) (k : String) (j : Job)
    → Reach start w
    → get_job k w.rows ≡ some j
    → j.status ≡ pending
    → j.attempts < max j.max_attempts 1 + w.recoveries
waiting_has_attempt w k j r h p = ((Reach-Inv w r).row k j h).waiting p

-- In a reachable queue the row of the job that runs is there and leased, and ids are unique.
pub running_is_leased :
    (w : World) (i : String)
    → Reach start w
    → w.running ≡ some i
    → HasUniqueIds w.rows × ((j : Job) × (get_job i w.rows ≡ some j) × (j.status ≡ leased))
running_is_leased w i r h = ((Reach-Inv w r).unique, (Reach-Inv w r).active i h)
