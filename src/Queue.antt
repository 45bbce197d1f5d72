-- ===== src/Queue.antt =====
-- The job queue (src/queue/index.ts): the statements on the jobs table.
pub mod Fields
pub mod Table
pub mod Statements
pub mod Claim
pub mod Outcome
pub mod Query
pub mod Reach
mod Tests
use musdash.Prelude.{
  ℕ, ◌+◌, ◌-◌, ◌*◌, zero, suc, String, Bool, true, false, ◌&&◌, ◌||◌, not, Option, none, some, List,
  [], ◌∷◌, ◌++◌, map, if◌then◌else◌, leb, ltb, ◌==◌, str_eq, min, map_option, get_or_else,
}
use Fields.{
  Payload, Scalar, SqlValue, Clauses, invalid_field, clauses, sql_text, payload_clauses,
  clauses_hold, equals_bound, json_extract,
}
use Table.{
  Job, Rows, Status, pending, leased, done, failed, cancelled, is_pending, is_leased, is_finished,
  get_job, update_where, count_where, delete_where, oldest_where, select_by_age, any_row,
}

abbrev pub lease_ms : ℕ
lease_ms = 15 * 60 * 1000

-- EnqueueOptions
pub record EnqueueOptions : Type 0 where
  pub run_after : Option ℕ
  pub max_attempts : Option ℕ
  pub id : Option String

-- The row that `enqueue` inserts. `fresh` is the ULID it draws when no id is asked for.
abbrev pub new_job : String → Payload → EnqueueOptions → String → ℕ → Job
new_job type payload opts fresh now = record {
  id = get_or_else fresh opts.id;
  type = type;
  payload_json = payload;
  status = pending;
  attempts = 0;
  max_attempts = get_or_else 3 opts.max_attempts;
  run_after = get_or_else now opts.run_after;
  leased_until = none;
  last_error = none;
  created_at = now;
}

abbrev pub insert_job : Option Job → Job → Rows → Option (String × Rows)
insert_job none j t = some (j.id, t ++ j ∷ [])
insert_job (some other) j t = none

-- `none` is the primary-key conflict, which throws and inserts nothing.
unfoldable pub enqueue :
    String → Payload → EnqueueOptions → String → ℕ → Rows → Option (String × Rows)
enqueue type payload opts fresh now t =
    let j = new_job type payload opts fresh now in insert_job (get_job j.id t) j t

-- status = 'pending' AND run_after <= now
abbrev pub is_runnable : ℕ → Job → Bool
is_runnable now j = is_pending j.status && leb j.run_after now

abbrev pub lease : ℕ → Job → Job
lease now j = record j {
  status = leased;
  leased_until = some (now + lease_ms);
  attempts = j.attempts + 1;
}

abbrev pub has_id : String → Job → Bool
has_id i j = str_eq j.id i

abbrev pub claim_row : ℕ → Rows → Option Job → Option Job × Rows
claim_row now t none = (none, t)
claim_row now t (some j) = (some (lease now j), update_where (has_id j.id) (lease now) t)

-- The one UPDATE … WHERE id = (SELECT …) RETURNING statement.
unfoldable pub claim : ℕ → Rows → Option Job × Rows
claim now t = claim_row now t (oldest_where (is_runnable now) t)

abbrev pub finish : Job → Job
finish j = record j { status = done; leased_until = none }

unfoldable pub complete : String → Rows → Rows
complete i t = update_where (has_id i) finish t

pub record FailResult : Type 0 where
  pub retrying : Bool
  pub attempts : ℕ

-- BACKOFF_SEC[max(0, min(attempts - 1, 2))]
abbrev pub backoff_sec : ℕ → ℕ
backoff_sec zero = 10
backoff_sec (suc zero) = 60
backoff_sec (suc (suc _)) = 300

abbrev pub delay_sec : ℕ → ℕ
delay_sec attempts = backoff_sec (min (attempts - 1) 2)

abbrev pub give_up : String → Job → Job
give_up error j = record j { status = failed; last_error = some error; leased_until = none }

abbrev pub retry_at : ℕ → String → Job → Job
retry_at run_after error j = record j {
  status = pending;
  run_after = run_after;
  last_error = some error;
  leased_until = none;
}

abbrev pub fail_row : String → String → ℕ → Rows → Option Job → FailResult × Rows
fail_row i error now t none = (record { retrying = false; attempts = 0 }, t)
fail_row i error now t (some j) =
    if leb j.max_attempts j.attempts
    then (
      record { retrying = false; attempts = j.attempts },
      update_where (has_id i) (give_up error) t,
    )
    else (
      record { retrying = true; attempts = j.attempts },
      update_where (has_id i) (retry_at (now + delay_sec j.attempts * 1000) error) t,
    )

unfoldable pub fail : String → String → ℕ → Rows → FailResult × Rows
fail i error now t = fail_row i error now t (get_job i t)

abbrev pub release : Job → Job
release j = record j { status = pending; leased_until = none }

unfoldable pub recover_orphaned_leases : Rows → ℕ × Rows
recover_orphaned_leases t =
    (count_where (λ j. is_leased j.status) t, update_where (λ j. is_leased j.status) release t)

unfoldable pub pending_count : Rows → ℕ
pending_count t = count_where (λ j. is_pending j.status) t

unfoldable pub active_job_count : Rows → ℕ
active_job_count t = count_where (λ j. is_pending j.status || is_leased j.status) t

abbrev pub is_pending_match : String → List (String × Option SqlValue) → Job → Bool
is_pending_match type cs j =
    str_eq j.type type && is_pending j.status && clauses_hold cs j.payload_json

abbrev pub is_leased_match : String → List (String × Option SqlValue) → Job → Bool
is_leased_match type cs j =
    str_eq j.type type && is_leased j.status && clauses_hold cs j.payload_json

-- The error names the invalid field.
pub data Lookup (A : Type 0) : Type 0 where
  throws : String → Lookup A
  found : A → Lookup A

abbrev find_in : Clauses → String → Rows → Lookup (Option String)
find_in (invalid_field key) type t = throws key
find_in (clauses cs) type t =
    found (map_option (λ j. j.id) (oldest_where (is_pending_match type cs) t))

unfoldable pub find_pending_job : String → List (String × Scalar) → Rows → Lookup (Option String)
find_pending_job type fields t = find_in (payload_clauses fields) type t

abbrev leased_in : Clauses → String → Rows → Lookup (List String)
leased_in (invalid_field key) type t = throws key
leased_in (clauses cs) type t = found (map (λ j. j.id) (select_by_age (is_leased_match type cs) t))

unfoldable pub find_leased_jobs : String → List (String × Scalar) → Rows → Lookup (List String)
find_leased_jobs type fields t = leased_in (payload_clauses fields) type t

abbrev pub is_rival : String → Job → Job → Bool
is_rival resource_id mine other =
    is_pending other.status
    && not (str_eq other.id mine.id)
    && equals_bound (json_extract "resourceId" other.payload_json) (sql_text resource_id)
    && leb mine.created_at other.created_at

-- SELECT EXISTS (SELECT 1 FROM jobs AS other, jobs AS mine WHERE …)
unfoldable pub has_pending_job_after : String → String → Rows → Bool
has_pending_job_after job_id resource_id t =
    any_row (λ mine. str_eq mine.id job_id && any_row (is_rival resource_id mine) t) t

abbrev pub is_deploy_of : String → Job → Bool
is_deploy_of deployment_id j =
    str_eq j.type "deploy"
    && is_pending j.status
    && equals_bound (json_extract "deploymentId" j.payload_json) (sql_text deployment_id)

abbrev pub cancel : Job → Job
cancel j = record j { status = cancelled; leased_until = none }

unfoldable pub cancel_pending_deploy : String → Rows → Bool × Rows
cancel_pending_deploy deployment_id t = (
  count_where (is_deploy_of deployment_id) t == 1,
  update_where (is_deploy_of deployment_id) cancel t,
)

abbrev pub is_prunable : ℕ → Job → Bool
is_prunable cutoff j = is_finished j.status && ltb j.created_at cutoff

unfoldable pub prune_finished_jobs : ℕ → ℕ → Rows → ℕ × Rows
prune_finished_jobs older_than_hours now t =
    let cutoff = now - older_than_hours * 3600 * 1000 in
    (count_where (is_prunable cutoff) t, delete_where (is_prunable cutoff) t)
