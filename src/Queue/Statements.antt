-- ===== src/Queue/Statements.antt =====
-- What the SQL statements of src/queue/index.ts do to the row of one id.
use musdash.Prelude.{
  ◌≤◌, ◌≡◌, refl, sym, inl, inr, String, Bool, true, false, Option, none, some, [], ◌∷◌, ◌++◌,
  arith, if◌then◌else◌, str_eq, eq_iff, map_option, All, All-imp, Bool-cases, Option-cases, ◌∙◌,
}
use mathlib.Core.Bool.{false≢true}
use native.Mathlib.Nat.{le_trans}
use musdash.Queue.Table.{Job, Rows, get_job, update_where, delete_where, oldest_where, older}

-- The primary key.
abbrev pub HasUniqueIds : Rows → Type 0
HasUniqueIds [] = Unit
HasUniqueIds (j ∷ t) = (get_job j.id t ≡ none) × HasUniqueIds t

abbrev pub KeepsId : (Job → Job) → Type 0
KeepsId f = (j : Job) → (f j).id ≡ j.id

abbrev pub apply_if : (Job → Bool) → (Job → Job) → Job → Job
apply_if p f j = if p j then f j else j

pub id-get_job : (i : String) (t : Rows) (j : Job) → get_job i t ≡ some j → j.id ≡ i
unfolding get_job
id-get_job i [] j h = cc
id-get_job i (k ∷ t) j h = ground (arith, eq_iff k.id i, id-get_job i t j)

module _ (p : Job → Bool) (f : Job → Job) (keeps : KeepsId f) where
  id-apply_if : (j : Job) → (apply_if p f j).id ≡ j.id
  id-apply_if j = ground (arith, keeps j)

  pub get_job-update_where :
      (i : String) (t : Rows)
      → get_job i (update_where p f t) ≡ map_option (apply_if p f) (get_job i t)
  unfolding get_job update_where
  get_job-update_where i [] = refl
  get_job-update_where i (j ∷ t) = elim (Bool-cases (str_eq j.id i)) [
    | inl e ↦ rw (id-apply_if j, e)
    | inr e ↦ rw (id-apply_if j, e) (get_job-update_where i t)
  ]

  pub HasUniqueIds-update_where : (t : Rows) → HasUniqueIds t → HasUniqueIds (update_where p f t)
  unfolding update_where
  HasUniqueIds-update_where [] u = tt
  HasUniqueIds-update_where (j ∷ t) (fresh, u) =
      (rw (id-apply_if j, get_job-update_where j.id t, fresh), HasUniqueIds-update_where t u)

-- The first of two results that is there.
abbrev pub or_job : Option Job → Option Job → Option Job
or_job none o = o
or_job (some j) o = some j

pub get_job-append :
    (i : String) (t s : Rows) → get_job i (t ++ s) ≡ or_job (get_job i t) (get_job i s)
unfolding get_job
get_job-append i [] s = refl
get_job-append i (j ∷ t) s = ground (arith, get_job-append i t s)

pub HasUniqueIds-append :
    (t : Rows) (j : Job) → HasUniqueIds t → get_job j.id t ≡ none → HasUniqueIds (t ++ j ∷ [])
unfolding get_job
HasUniqueIds-append [] j u h = (refl, tt)
HasUniqueIds-append (k ∷ t) j (fresh, u) h = (
  rw (get_job-append k.id t (j ∷ []), fresh) (ground (arith, eq_iff j.id k.id, eq_iff k.id j.id)),
  HasUniqueIds-append t j u (ground arith),
)

abbrev pub keep_unless : (Job → Bool) → Option Job → Option Job
keep_unless p none = none
keep_unless p (some j) = if p j then none else some j

module _ (p : Job → Bool) where
  pub get_job-delete_where-none :
      (i : String) (t : Rows) → get_job i t ≡ none → get_job i (delete_where p t) ≡ none
  unfolding get_job delete_where
  get_job-delete_where-none i [] h = h
  get_job-delete_where-none i (k ∷ t) h = ground (arith, get_job-delete_where-none i t)

  pub HasUniqueIds-delete_where : (t : Rows) → HasUniqueIds t → HasUniqueIds (delete_where p t)
  unfolding delete_where
  HasUniqueIds-delete_where [] u = tt
  HasUniqueIds-delete_where (k ∷ t) (fresh, u) =
      ground (arith, get_job-delete_where-none k.id t fresh, HasUniqueIds-delete_where t u)

  -- With unique ids a deletion takes away exactly the rows that meet its condition.
  pub get_job-delete_where :
      (i : String) (t : Rows)
      → HasUniqueIds t
      → get_job i (delete_where p t) ≡ keep_unless p (get_job i t)
  unfolding get_job delete_where
  get_job-delete_where i [] u = refl
  get_job-delete_where i (k ∷ t) (fresh, u) = elim (Bool-cases (str_eq k.id i)) [
    | inl e ↦ elim (Bool-cases (p k)) [
      | inl d ↦ rw (e, d) (get_job-delete_where-none i t (rw ((eq_iff k.id i).0 e) at fresh))
      | inr d ↦ rw (d, e) (ground arith)
    ]
    | inr e ↦ ground (arith, get_job-delete_where i t u)
  ]

older_le :
    (k m j : Job) (b : Bool)
    → (if b then older k (some m) else some m) ≡ some j
    → j.created_at ≤ m.created_at
older_le k m j b h = ground arith

-- The oldest row that meets a condition.
module _ (p : Job → Bool) where
  pub oldest_where-none : (t : Rows) → oldest_where p t ≡ none → All (λ k. p k ≡ false) t
  unfolding oldest_where
  oldest_where-none [] h = tt
  oldest_where-none (k ∷ t) h = ground (arith, oldest_where-none t)

  pub oldest_where_of_none : (t : Rows) → All (λ k. p k ≡ false) t → oldest_where p t ≡ none
  unfolding oldest_where
  oldest_where_of_none [] h = refl
  oldest_where_of_none (k ∷ t) (h, hs) = rw (h, oldest_where_of_none t hs)

  pub oldest_where_holds : (t : Rows) (j : Job) → oldest_where p t ≡ some j → p j ≡ true
  unfolding oldest_where
  oldest_where_holds [] j h = cc
  oldest_where_holds (k ∷ t) j h = ground (arith, oldest_where_holds t j)

  pub oldest_where_minimal :
      (t : Rows) (j : Job)
      → oldest_where p t ≡ some j
      → All (λ k. p k ≡ true → j.created_at ≤ k.created_at) t
  unfolding oldest_where
  oldest_where_minimal [] j h = tt
  oldest_where_minimal (k ∷ t) j h = elim (Option-cases (oldest_where p t)) [
    | inl e ↦
        (ground arith, All-imp (λ x n q. absurd (false≢true (sym n ∙ q))) t (oldest_where-none t e))
    | inr (m, e) ↦ (
      ground arith,
      All-imp (λ x bound q. le_trans (older_le k m j (p k) (ground arith)) (bound q)) t
          (oldest_where_minimal t m e),
    )
  ]

  pub oldest_where_stored :
      (t : Rows) (j : Job) → HasUniqueIds t → oldest_where p t ≡ some j → get_job j.id t ≡ some j
  unfolding oldest_where get_job
  oldest_where_stored [] j u h = cc
  oldest_where_stored (k ∷ t) j u h = elim (Option-cases (oldest_where p t)) [
    | inl e ↦ ground (arith, eq_iff k.id j.id)
    | inr (m, e) ↦ ground (arith, eq_iff k.id j.id, oldest_where_stored t m u.1 e)
  ]
