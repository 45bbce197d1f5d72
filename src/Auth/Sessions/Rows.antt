-- ===== src/Auth/Sessions/Rows.antt =====
-- What is found in the rows of the sessions table after each statement (src/auth.ts).
use musdash.Prelude.{
  ℕ, ◌≡◌, refl, sym, ap, ◌∙◌, subst, String, false, Option, none, some, [], ◌∷◌, ◌++◌,
  if◌then◌else◌, str_eq, eq_iff, ltb, inl, inr, Bool-cases, arith,
}
use mathlib.Core.Option.{none-ne-some}
use musdash.Auth.Sessions.{Session, Sessions, find_session, destroy_session, purge_expired_sessions}
use musdash.Auth.Sessions.Events.{none_either}

-- The rows of one id are one.
unfoldable pub HasUniqueIds : Sessions → Type 0
HasUniqueIds [] = Unit
HasUniqueIds (s ∷ t) = (find_session s.id t ≡ none) × HasUniqueIds t

abbrev pub kept : ℕ → Option Session → Option Session
kept now none = none
kept now (some s) = if ltb s.expires_at now then none else some s

pub find-destroy :
    (i id : String) (t : Sessions)
    → find_session i (destroy_session id t) ≡ (if str_eq id i then none else find_session i t)
unfolding find_session destroy_session
find-destroy i id [] = ground arith
find-destroy i id (s ∷ t) =
    ground (arith, eq_iff s.id id, eq_iff s.id i, eq_iff id i, find-destroy i id t)

pub find-purge :
    (i : String) (now : ℕ) (t : Sessions)
    → HasUniqueIds t
    → find_session i (purge_expired_sessions now t) ≡ kept now (find_session i t)
unfolding find_session purge_expired_sessions HasUniqueIds
find-purge i now [] h = refl
find-purge i now (s ∷ t) h = elim (Bool-cases (ltb s.expires_at now)) [
  | inl e ↦ elim (Bool-cases (str_eq s.id i)) [
    | inl f ↦
        let same = subst (λ k. find_session k t ≡ none) ((eq_iff s.id i).0 f) h.0 in
        rw (e, f) (rw e (find-purge i now t h.1 ∙ ap (kept now) same))
    | inr f ↦ rw (e, f) (find-purge i now t h.1)
  ]
  | inr e ↦ elim (Bool-cases (str_eq s.id i)) [
    | inl f ↦ rw (e, f) (rw e refl)
    | inr f ↦ rw (e, f) (find-purge i now t h.1)
  ]
]

pub find-append :
    (i : String) (t : Sessions) (s : Session)
    → find_session s.id t ≡ none
    → find_session i (t ++ (s ∷ [])) ≡ (if str_eq s.id i then some s else find_session i t)
unfolding find_session
find-append i [] s h = refl
find-append i (r ∷ t) s h =
    ground (arith, eq_iff r.id s.id, eq_iff r.id i, eq_iff s.id i, find-append i t s, h)

past_row :
    (r : Session) (t : Sessions) (id : String)
    → find_session id (r ∷ t) ≡ none
    → find_session id t ≡ none
unfolding find_session
past_row r t id e = elim (Bool-cases (str_eq r.id id)) [
  | inl f ↦ absurd (none-ne-some _ (sym (rw f at e)))
  | inr f ↦ rw f at e
]

other_id :
    (r : Session) (t : Sessions) (id : String)
    → find_session id (r ∷ t) ≡ none
    → str_eq id r.id ≡ false
unfolding find_session
other_id r t id e = elim (Bool-cases (str_eq r.id id)) [
  | inl f ↦ absurd (none-ne-some _ (sym (rw f at e)))
  | inr f ↦ ground (arith, f, eq_iff r.id id, eq_iff id r.id)
]

pub append-HasUniqueIds :
    (t : Sessions) (s : Session)
    → find_session s.id t ≡ none
    → HasUniqueIds t
    → HasUniqueIds (t ++ (s ∷ []))
unfolding HasUniqueIds find_session
append-HasUniqueIds [] s e h = (refl, tt)
append-HasUniqueIds (r ∷ t) s e h = (
  find-append r.id t s (past_row r t s.id e) ∙ rw (other_id r t s.id e) h.0,
  append-HasUniqueIds t s (past_row r t s.id e) h.1,
)

pub destroy-HasUniqueIds :
    (id : String) (t : Sessions) → HasUniqueIds t → HasUniqueIds (destroy_session id t)
unfolding HasUniqueIds destroy_session
destroy-HasUniqueIds id [] h = tt
destroy-HasUniqueIds id (s ∷ t) h = elim (Bool-cases (str_eq s.id id)) [
  | inl e ↦ rw e (destroy-HasUniqueIds id t h.1)
  | inr e ↦ rw e (
    find-destroy s.id id t ∙ none_either (str_eq id s.id) (find_session s.id t) h.0,
    destroy-HasUniqueIds id t h.1,
  )
]

pub purge-HasUniqueIds :
    (now : ℕ) (t : Sessions) → HasUniqueIds t → HasUniqueIds (purge_expired_sessions now t)
unfolding HasUniqueIds purge_expired_sessions
purge-HasUniqueIds now [] h = tt
purge-HasUniqueIds now (s ∷ t) h = elim (Bool-cases (ltb s.expires_at now)) [
  | inl e ↦ rw e (purge-HasUniqueIds now t h.1)
  | inr e ↦ rw e (find-purge s.id now t h.1 ∙ ap (kept now) h.0, purge-HasUniqueIds now t h.1)
]
