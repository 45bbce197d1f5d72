-- ===== src/Queue/Table.antt =====
-- The jobs table (src/queue/index.ts, JobRow): the list of its rows in row order, and the shapes of
-- the SQL statements that the queue runs on it. A time is a number of milliseconds, which orders as
-- its ISO text does. `ORDER BY created_at LIMIT 1` between equal times is not defined by SQL: here
-- the first row is taken.
use musdash.Prelude.{
  ℕ, suc, String, Bool, true, false, ◌||◌, Option, none, some, List, [], ◌∷◌, if◌then◌else◌, ltb,
  str_eq,
}
use musdash.Queue.Fields.{Payload}

pub data Status : Type 0 where
  pending leased done failed cancelled : Status

abbrev pub is_pending : Status → Bool
is_pending pending = true
is_pending _ = false

abbrev pub is_leased : Status → Bool
is_leased leased = true
is_leased _ = false

-- `status IN ('done','failed','cancelled')`
abbrev pub is_finished : Status → Bool
is_finished done = true
is_finished failed = true
is_finished cancelled = true
is_finished _ = false

-- JobRow
pub record Job : Type 0 where
  pub id : String
  pub type : String
  pub payload_json : Payload
  pub status : Status
  pub attempts : ℕ
  pub max_attempts : ℕ
  pub run_after : ℕ
  pub leased_until : Option ℕ
  pub last_error : Option String
  pub created_at : ℕ

abbrev pub Rows : Type 0
Rows = List Job

-- SELECT * FROM jobs WHERE id = ?
unfoldable pub get_job : String → Rows → Option Job
get_job i [] = none
get_job i (j ∷ t) = if str_eq j.id i then some j else get_job i t

-- UPDATE jobs SET … WHERE …
unfoldable pub update_where : (Job → Bool) → (Job → Job) → Rows → Rows
update_where p f [] = []
update_where p f (j ∷ t) = (if p j then f j else j) ∷ update_where p f t

-- SELECT COUNT(*) FROM jobs WHERE …
unfoldable pub count_where : (Job → Bool) → Rows → ℕ
count_where p [] = 0
count_where p (j ∷ t) = if p j then suc (count_where p t) else count_where p t

-- DELETE FROM jobs WHERE …
unfoldable pub delete_where : (Job → Bool) → Rows → Rows
delete_where p [] = []
delete_where p (j ∷ t) = if p j then delete_where p t else j ∷ delete_where p t

abbrev pub older : Job → Option Job → Option Job
older j none = some j
older j (some k) = if ltb k.created_at j.created_at then some k else some j

-- SELECT … WHERE p ORDER BY created_at LIMIT 1
unfoldable pub oldest_where : (Job → Bool) → Rows → Option Job
oldest_where p [] = none
oldest_where p (j ∷ t) = let rest = oldest_where p t in if p j then older j rest else rest

-- ORDER BY created_at: a stable insertion sort.
unfoldable pub insert_by_age : Job → List Job → List Job
insert_by_age j [] = j ∷ []
insert_by_age j (k ∷ t) = if ltb k.created_at j.created_at then k ∷ insert_by_age j t else j ∷ k ∷ t

unfoldable pub select_by_age : (Job → Bool) → Rows → List Job
select_by_age p [] = []
select_by_age p (j ∷ t) = let rest = select_by_age p t in if p j then insert_by_age j rest else rest

unfoldable pub any_row : (Job → Bool) → Rows → Bool
any_row p [] = false
any_row p (j ∷ t) = p j || any_row p t
