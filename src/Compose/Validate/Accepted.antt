-- ===== src/Compose/Validate/Accepted.antt =====
-- No refusal in the sorted list is no refusal at all (src/compose/validate.ts, sortRefusals and the
-- lists that the checks join).
use musdash.Prelude.{◌≡◌, ◌≢◌, refl, String, Bool, true, false, Option, List, [], ◌∷◌, ◌++◌, arith}
use musdash.Compose.Refusal.{Refusal, RefusalCode, insert_refusal, sorted, distinct, sort_refusals}
use musdash.Compose.Keys.{Added, when}
use musdash.Compose.Validate.{refusals_of}

pub append-nil_inv {ℓ} : {A : Type ℓ} (xs ys : List A) → xs ++ ys ≡ [] → (xs ≡ []) × (ys ≡ [])
append-nil_inv [] ys h = (refl, h)
append-nil_inv (x ∷ xs) ys h = cc

pub left_nil {ℓ} : {A : Type ℓ} (xs ys : List A) → xs ++ ys ≡ [] → xs ≡ []
left_nil xs ys h = (append-nil_inv xs ys h).0

pub right_nil {ℓ} : {A : Type ℓ} (xs ys : List A) → xs ++ ys ≡ [] → ys ≡ []
right_nil xs ys h = (append-nil_inv xs ys h).1

pub cons-ne-nil {ℓ} : {A : Type ℓ} (x : A) (xs : List A) → x ∷ xs ≢ []
cons-ne-nil x xs e = cc

insert_refusal_some : (r : Refusal) (rs : List Refusal) → insert_refusal r rs ≢ []
unfolding insert_refusal
insert_refusal_some r [] e = cc
insert_refusal_some r (q ∷ qs) e = ground arith

sorted_nil : (rs : List Refusal) → sorted rs ≡ [] → rs ≡ []
unfolding sorted
sorted_nil [] h = refl
sorted_nil (r ∷ rs) h = absurd (insert_refusal_some r (sorted rs) h)

-- Sorting and deduplication hide no refusal.
pub sort_refusals_nil : (rs : List Refusal) → sort_refusals rs ≡ [] → rs ≡ []
unfolding sort_refusals distinct
sort_refusals_nil [] h = refl
sort_refusals_nil (r ∷ rs) h = absurd (cons-ne-nil _ _ (sorted_nil (distinct [] (r ∷ rs)) h))

pub refusals_of_nil :
    (service : Option String) (added : Added) → refusals_of service added ≡ [] → added ≡ []
refusals_of_nil service [] h = refl
refusals_of_nil service (a ∷ more) h = absurd (cons-ne-nil _ _ h)

pub when-false : (b : Bool) (code : RefusalCode) (at : String) → when b code at ≡ [] → b ≡ false
when-false true code at h = absurd (cons-ne-nil _ _ h)
when-false false code at h = refl
