-- ===== src/Auth/Sessions/Events.antt =====
-- What happens to the sessions (src/auth.ts), and the map that it promises.
use musdash.Prelude.{
  ℕ, ◌+◌, ◌≡◌, refl, sym, String, Bool, true, false, ◌&&◌, ◌||◌, not, Option, none, some, List, [],
  ◌∷◌, if◌then◌else◌, str_eq, inl, inr, Bool-cases, arith,
}
use mathlib.Core.Bool.{false≢true}
use musdash.Auth.Sessions.{Session, new_session}

-- What happens to the table, each a `wait` after the event before.
pub data SessionEvent : Type 0 where
  creates : (wait : ℕ) (id csrf_token user_id : String) → SessionEvent
  resolves : (wait : ℕ) (id : String) → SessionEvent
  destroys : (wait : ℕ) (id : String) → SessionEvent
  purges : (wait : ℕ) → SessionEvent

abbrev pub wait_of : SessionEvent → ℕ
wait_of (creates wait id csrf_token user_id) = wait
wait_of (resolves wait id) = wait
wait_of (destroys wait id) = wait
wait_of (purges wait) = wait

-- The last event is in front; the clock starts at 0.
abbrev pub clock_after : List SessionEvent → ℕ
clock_after [] = 0
clock_after (e ∷ es) = clock_after es + wait_of e

-- The promise: a map that signing in and signing out change, and nothing else.
abbrev pub Grants : Type 0
Grants = String → Option Session

abbrev grant_event : SessionEvent → ℕ → Grants → Grants
grant_event (creates wait id csrf_token user_id) now g =
    λ i. if str_eq id i then some (new_session id csrf_token user_id now) else g i
grant_event (resolves wait id) now g = g
grant_event (destroys wait id) now g = λ i. if str_eq id i then none else g i
grant_event (purges wait) now g = g

abbrev pub granted : List SessionEvent → Grants
granted [] = λ i. none
granted (e ∷ es) = grant_event e (clock_after (e ∷ es)) (granted es)

-- No two sessions are created under one id, which is a token of 32 random bytes.
abbrev pub created_in : String → List SessionEvent → Bool
created_in i [] = false
created_in i (creates wait id csrf_token user_id ∷ es) = str_eq id i || created_in i es
created_in i (resolves wait id ∷ es) = created_in i es
created_in i (destroys wait id ∷ es) = created_in i es
created_in i (purges wait ∷ es) = created_in i es

abbrev pub distinct_ids : List SessionEvent → Bool
distinct_ids [] = true
distinct_ids (creates wait id csrf_token user_id ∷ es) = not (created_in id es) && distinct_ids es
distinct_ids (resolves wait id ∷ es) = distinct_ids es
distinct_ids (destroys wait id ∷ es) = distinct_ids es
distinct_ids (purges wait ∷ es) = distinct_ids es

pub none_either : (b : Bool) (o : Option Session) → o ≡ none → (if b then none else o) ≡ none
none_either true o e = refl
none_either false o e = e

pub not_created :
    (id : String) (es : List SessionEvent)
    → (not (created_in id es) && distinct_ids es) ≡ true
    → created_in id es ≡ false
not_created id es d = ground arith

pub distinct_rest :
    (e : SessionEvent) (es : List SessionEvent)
    → distinct_ids (e ∷ es) ≡ true
    → distinct_ids es ≡ true
distinct_rest (creates wait id csrf_token user_id) es d = ground arith
distinct_rest (resolves wait id) es d = d
distinct_rest (destroys wait id) es d = d
distinct_rest (purges wait) es d = d

pub granted-none :
    (id : String) (es : List SessionEvent) → created_in id es ≡ false → granted es id ≡ none
granted-none id [] h = refl
granted-none id (creates wait j csrf_token user_id ∷ es) h = elim (Bool-cases (str_eq j id)) [
  | inl e ↦ absurd (false≢true (sym (rw e at h)))
  | inr e ↦ rw e (granted-none id es (rw e at h))
]
granted-none id (resolves wait j ∷ es) h = granted-none id es h
granted-none id (destroys wait j ∷ es) h =
    none_either (str_eq j id) (granted es id) (granted-none id es h)
granted-none id (purges wait ∷ es) h = granted-none id es h
