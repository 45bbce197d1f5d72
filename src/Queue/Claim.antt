-- ===== src/Queue/Claim.antt =====
-- claim() of src/queue/index.ts: which row it takes, and what it leaves alone.
use musdash.Prelude.{
  ℕ, ◌≤◌, ◌≡◌, ◌≢◌, refl, sym, ◌↔◌, String, true, false, none, some, arith, if◌then◌else◌, str_eq,
  eq_iff, All, Bool-cases, Option-cases, inl, inr, subst,
}
use mathlib.Core.Option.{some-injective}
use musdash.Queue.Table.{Job, Rows, get_job, update_where, oldest_where}
use musdash.Queue.Statements.{
  HasUniqueIds, KeepsId, id-get_job, get_job-update_where, oldest_where-none, oldest_where_of_none,
  oldest_where_holds, oldest_where_minimal, oldest_where_stored,
}
use musdash.Queue.{is_runnable, lease, has_id, claim}

-- What a claim of row `job` did: it is the lease of a stored, runnable row, older than or as old as
-- every runnable row, and no other row changed.
pub record Claimed (now : ℕ) (t : Rows) (job : Job) : Type 0 where
  pub before : Job
  pub stored : get_job job.id t ≡ some before
  pub runnable : is_runnable now before ≡ true
  pub leased_from : job ≡ lease now before
  pub oldest : All (λ k. is_runnable now k ≡ true → before.created_at ≤ k.created_at) t
  pub rows :
      (i : String) → get_job i (claim now t).1 ≡ (if str_eq job.id i then some job else get_job i t)

none-ne-some : (j : Job) → none ≢ some j
none-ne-some j e = cc

lease-KeepsId : (now : ℕ) → KeepsId (lease now)
lease-KeepsId now j = refl

-- An update of the row with one id, seen from another id and from its own.
pub get_job-update_id :
    (f : Job → Job) (keeps : KeepsId f) (t : Rows) (j : Job) (i : String)
    → get_job j.id t ≡ some j
    → get_job i (update_where (has_id j.id) f t)
      ≡ (if str_eq j.id i then some (f j) else get_job i t)
get_job-update_id f keeps t j i stored = elim (Bool-cases (str_eq j.id i)) [
  | inl same ↦
      let e : j.id ≡ i = (eq_iff j.id i).0 same in
      rw (
        same,
        get_job-update_where (has_id j.id) f keeps i t,
        ← e,
        stored,
        (eq_iff j.id j.id).1 refl,
      )
  | inr other ↦
      rw (other, get_job-update_where (has_id j.id) f keeps i t)
        (elim (Option-cases (get_job i t)) [
          | inl e ↦ rw e
          | inr (k, e) ↦ rw e (ground (arith, id-get_job i t k e, eq_iff k.id j.id, eq_iff j.id i))
        ])
]

claim_of_oldest :
    (now : ℕ) (t : Rows) (j : Job)
    → HasUniqueIds t
    → oldest_where (is_runnable now) t ≡ some j
    → Claimed now t (lease now j)
unfolding claim
claim_of_oldest now t j u e = record {
  before = j;
  stored = oldest_where_stored (is_runnable now) t j u e;
  runnable = oldest_where_holds (is_runnable now) t j e;
  leased_from = refl;
  oldest = oldest_where_minimal (is_runnable now) t j e;
  rows = λ i. rw e (
      get_job-update_id (lease now) (lease-KeepsId now) t j i
        (oldest_where_stored (is_runnable now) t j u e));
}

-- In a table with unique ids, what claim returns is the lease of a stored row that was pending
-- and due and is as old as any such row; the table then holds it, and every other row as
-- before.
pub claim-Claimed :
    (now : ℕ) (t : Rows) (job : Job)
    → HasUniqueIds t
    → (claim now t).0 ≡ some job
    → Claimed now t job
unfolding claim
claim-Claimed now t job u h = elim (Option-cases (oldest_where (is_runnable now) t)) [
  | inl e ↦ absurd (none-ne-some _ (rw e at h))
  | inr (j, e) ↦
      subst (Claimed now t) (some-injective _ _ (rw e at h)) (claim_of_oldest now t j u e)
]

-- claim returns null exactly when no row is pending and due, and then it changes nothing.
pub claim-none_iff :
    (now : ℕ) (t : Rows)
    → ((claim now t).0 ≡ none) ↔ (All (λ k. is_runnable now k ≡ false) t × ((claim now t).1 ≡ t))
unfolding claim
claim-none_iff now t = (
  λ h. elim (Option-cases (oldest_where (is_runnable now) t)) [
    | inl e ↦ (oldest_where-none (is_runnable now) t e, rw e)
    | inr (j, e) ↦ absurd (none-ne-some _ (sym (rw e at h)))
  ],
  λ h. rw (oldest_where_of_none (is_runnable now) t h.0),
)
