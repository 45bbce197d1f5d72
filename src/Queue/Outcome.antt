-- ===== src/Queue/Outcome.antt =====
-- complete() and fail() of src/queue/index.ts, by the row they are given.
use musdash.Prelude.{
  ℕ, ◌+◌, ◌*◌, ◌-◌, min, zero, suc, ◌≤◌, ◌≡◌, refl, String, true, false, none, some, arith,
  if◌then◌else◌, leb, str_eq, eq_iff, map_option, Bool-cases, Option-cases, inl, inr,
}
use musdash.Queue.Table.{Job, Rows, get_job, update_where}
use musdash.Queue.Statements.{KeepsId, id-get_job, get_job-update_where}
use musdash.Queue.{has_id, finish, complete, delay_sec, backoff_sec, give_up, retry_at, fail}

-- An update by id, where nothing is known of the row.
pub get_job-update_has_id :
    (f : Job → Job) (keeps : KeepsId f) (i k : String) (t : Rows)
    → get_job k (update_where (has_id i) f t)
      ≡ (if str_eq i k then map_option f (get_job k t) else get_job k t)
get_job-update_has_id f keeps i k t =
    rw (get_job-update_where (has_id i) f keeps k t) (elim (Option-cases (get_job k t)) [
      | inl e ↦ rw e (ground arith)
      | inr (j, e) ↦ rw e (ground (arith, id-get_job k t j e, eq_iff j.id i, eq_iff i k))
    ])

pub get_job-complete :
    (i k : String) (t : Rows)
    → get_job k (complete i t)
      ≡ (if str_eq i k then map_option finish (get_job k t) else get_job k t)
unfolding complete
get_job-complete i k t = get_job-update_has_id finish (λ j. refl) i k t

-- The row that `fail` leaves behind for the job that failed.
abbrev pub after_failure : String → ℕ → Job → Job
after_failure error now j =
    if leb j.max_attempts j.attempts
    then give_up error j
    else retry_at (now + delay_sec j.attempts * 1000) error j

-- For a stored job: fail reports the attempts made, and that it retries exactly while they are
-- below max_attempts. The row becomes pending and due after the backoff while it retries, and
-- failed for good from then on; no other row changes.
pub fail_lem :
    (i error : String) (now : ℕ) (t : Rows) (j : Job)
    → get_job i t ≡ some j
    → ((fail i error now t).0 ≡ record {
      retrying = if leb j.max_attempts j.attempts then false else true;
      attempts = j.attempts;
    })
      × ((k : String)
          → get_job k (fail i error now t).1
            ≡ (if str_eq i k then some (after_failure error now j) else get_job k t))
unfolding fail
fail_lem i error now t j stored = elim (Bool-cases (leb j.max_attempts j.attempts)) [
  | inl out ↦ (rw (stored, out), λ k. rw (stored, out) (updated (give_up error) (λ x. refl) k))
  | inr room ↦ (
    rw (stored, room),
    λ k.
        rw (stored, room)
          (updated (retry_at (now + delay_sec j.attempts * 1000) error) (λ x. refl) k),
  )
]
  where
    updated :
        (f : Job → Job) (keeps : KeepsId f) (k : String)
        → get_job k (update_where (has_id i) f t) ≡ (if str_eq i k then some (f j) else get_job k t)
    updated f keeps k = rw (get_job-update_has_id f keeps i k t) (elim (Bool-cases (str_eq i k)) [
      | inl e ↦ rw e (rw (← (eq_iff i k).0 e) (rw stored))
      | inr e ↦ rw e
    ])

-- A missing row: nothing is written.
pub fail_missing :
    (i error : String) (now : ℕ) (t : Rows) → get_job i t ≡ none → (fail i error now t).1 ≡ t
unfolding fail
fail_missing i error now t h = rw h

backoff_sec_bounds :
    (m n : ℕ)
    → m ≤ n
    → (10 ≤ backoff_sec m) × (backoff_sec m ≤ backoff_sec n) × (backoff_sec n ≤ 300)
backoff_sec_bounds zero zero h = omega arith
backoff_sec_bounds zero (suc zero) h = omega arith
backoff_sec_bounds zero (suc (suc n)) h = omega arith
backoff_sec_bounds (suc zero) zero h = omega arith
backoff_sec_bounds (suc zero) (suc zero) h = omega arith
backoff_sec_bounds (suc zero) (suc (suc n)) h = omega arith
backoff_sec_bounds (suc (suc m)) zero h = omega arith
backoff_sec_bounds (suc (suc m)) (suc zero) h = omega arith
backoff_sec_bounds (suc (suc m)) (suc (suc n)) h = omega arith

-- The delay before a retry never shrinks as the attempts grow, and it lies between ten seconds
-- and five minutes.
pub delay_sec_bounds :
    (a b : ℕ) → a ≤ b → (10 ≤ delay_sec a) × (delay_sec a ≤ delay_sec b) × (delay_sec b ≤ 300)
delay_sec_bounds a b h =
    ground (arith, backoff_sec_bounds (min (a - 1) 2) (min (b - 1) 2) (omega arith))
