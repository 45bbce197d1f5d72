-- ===== src/Auth/Sessions/Granted.antt =====
-- The sessions table against the map that it promises (src/auth.ts), after any events.
use musdash.Prelude.{
  ℕ, ◌+◌, ◌<◌, ◌≡◌, refl, sym, ap, ◌∙◌, subst, String, Bool, true, false, Option, none, some, List,
  [], ◌∷◌, ◌++◌, if◌then◌else◌, str_eq, eq_iff, ltb, ltb→lt, lt→ltb, ◌⊎◌, inl, inr, Bool-cases,
  Option-cases, arith,
}
use mathlib.Core.Option.{none-ne-some}
use musdash.Auth.Sessions.{
  Session, SessionUser, Sessions, find_session, new_session, insert_session, create_session,
  destroy_session, purge_expired_sessions, session_user, joined, resolve_row, resolve_session,
}
use musdash.Auth.Sessions.Events.{
  SessionEvent, creates, resolves, destroys, purges, wait_of, clock_after, Grants, granted,
  distinct_ids, not_created, distinct_rest, granted-none,
}
use musdash.Auth.Sessions.Rows.{
  HasUniqueIds, kept, find-destroy, find-purge, find-append, append-HasUniqueIds,
  destroy-HasUniqueIds, purge-HasUniqueIds,
}

-- What is found is what was granted, or was lost after it expired.
abbrev Agreed : ℕ → Option Session → Option Session → Type 0
Agreed now o g = (o ≡ g) ⊎ ((o ≡ none) × (s : Session) × (g ≡ some s) × (s.expires_at < now))

later-Agreed : (o g : Option Session) (now wait : ℕ) → Agreed now o g → Agreed (now + wait) o g
later-Agreed o g now wait (inl e) = inl e
later-Agreed o g now wait (inr (e, s, es, h)) = inr (e, s, es, omega (arith, h))

same-Agreed :
    (b : Bool) (o g x : Option Session) (now : ℕ)
    → Agreed now o g
    → Agreed now (if b then x else o) (if b then x else g)
same-Agreed true o g x now h = inl refl
same-Agreed false o g x now h = h

kept-Agreed : (o g : Option Session) (now : ℕ) → Agreed now o g → Agreed now (kept now o) g
kept-Agreed none g now h = h
kept-Agreed (some s) g now (inr (e, x, ex, late)) = absurd (none-ne-some _ (sym e))
kept-Agreed (some s) g now (inl e) = elim (Bool-cases (ltb s.expires_at now)) [
  | inl f ↦ rw f (inr (refl, s, sym e, ltb→lt _ _ f))
  | inr f ↦ rw f (inl e)
]

-- A row that is deleted because it expired.
expired-Agreed :
    (b : Bool) (s : Session) (o g : Option Session) (now : ℕ)
    → (b ≡ true → o ≡ some s)
    → s.expires_at < now
    → Agreed now o g
    → Agreed now (if b then none else o) g
expired-Agreed false s o g now e late h = h
expired-Agreed true s o g now e late (inl f) = inr (refl, s, sym f ∙ e refl, late)
expired-Agreed true s o g now e late (inr (f, x, ex, l)) = absurd (none-ne-some _ (sym f ∙ e refl))

either_none : (b : Bool) (o : Option SessionUser) → o ≡ none → none ≡ (if b then none else o)
either_none true o e = refl
either_none false o e = sym e

module _ (email_of : String → Option String) where
  unfoldable apply_event : SessionEvent → ℕ → Sessions → Sessions
  apply_event (creates wait id csrf_token user_id) now t =
      create_session id csrf_token user_id now t
  apply_event (resolves wait id) now t = (resolve_session email_of id now t).1
  apply_event (destroys wait id) now t = destroy_session id t
  apply_event (purges wait) now t = purge_expired_sessions now t

  unfoldable pub sessions_after : List SessionEvent → Sessions
  unfolding apply_event
  sessions_after [] = []
  sessions_after (e ∷ es) = apply_event e (clock_after (e ∷ es)) (sessions_after es)

  record IsTable (t : Sessions) (g : Grants) (now : ℕ) : Type 0 where
    unique : HasUniqueIds t
    agreed : (i : String) → Agreed now (find_session i t) (g i)

  resolve-IsTable :
      (id : String) (now : ℕ) (t : Sessions) (g : Grants) (o : Option Session)
      → find_session id t ≡ o
      → IsTable t g now
      → IsTable (resolve_row email_of id now t (joined email_of o)).1 g now
  unfolding resolve_row
  resolve-IsTable id now t g none e h = h
  resolve-IsTable id now t g (some s) e h = elim (Option-cases (email_of s.user_id)) [
    | inl f ↦ rw f h
    | inr (email, f) ↦ elim (Bool-cases (ltb s.expires_at now)) [
      | inr l ↦ rw (f, l) h
      | inl l ↦
          rw (f, l)
            (record {
              unique = destroy-HasUniqueIds id t h.unique;
              agreed = λ i.
                  subst (λ x. Agreed now x (g i)) (sym (find-destroy i id t))
                    (expired-Agreed (str_eq id i) s (find_session i t) (g i) now
                      (λ b. ap (λ k. find_session k t) (sym ((eq_iff id i).0 b)) ∙ e) (ltb→lt _ _ l)
                      (h.agreed i));
            })
    ]
  ]

  request-IsTable :
      (b : Bool) (id : String) (now : ℕ) (t : Sessions) (g : Grants)
      → IsTable t g now
      → IsTable
          (if b
            then (none, t)
            else resolve_row email_of id now t (joined email_of (find_session id t))).1
          g
          now
  request-IsTable true id now t g h = h
  request-IsTable false id now t g h = resolve-IsTable id now t g (find_session id t) refl h

  create-IsTable :
      (s : Session) (now : ℕ) (t : Sessions) (g : Grants)
      → find_session s.id t ≡ none
      → IsTable t g now
      → IsTable (t ++ (s ∷ [])) (λ i. if str_eq s.id i then some s else g i) now
  create-IsTable s now t g fresh h = record {
    unique = append-HasUniqueIds t s fresh h.unique;
    agreed = λ i.
        subst (λ x. Agreed now x (if str_eq s.id i then some s else g i))
          (sym (find-append i t s fresh))
          (same-Agreed (str_eq s.id i) (find_session i t) (g i) (some s) now (h.agreed i));
  }

  later-IsTable :
      (t : Sessions) (g : Grants) (now wait : ℕ) → IsTable t g now → IsTable t g (now + wait)
  later-IsTable t g now wait h = record {
    unique = h.unique;
    agreed = λ i. later-Agreed (find_session i t) (g i) now wait (h.agreed i);
  }

  fresh_id :
      (id : String) (t : Sessions) (g : Grants) (now : ℕ)
      → g id ≡ none
      → Agreed now (find_session id t) (g id)
      → find_session id t ≡ none
  fresh_id id t g now e (inl f) = f ∙ e
  fresh_id id t g now e (inr (f, x, ex, late)) = f

  event-IsTable :
      (e : SessionEvent) (es : List SessionEvent)
      → distinct_ids (e ∷ es) ≡ true
      → IsTable (sessions_after es) (granted es) (clock_after (e ∷ es))
      → IsTable
          (apply_event e (clock_after (e ∷ es)) (sessions_after es))
          (granted (e ∷ es))
          (clock_after (e ∷ es))
  unfolding apply_event create_session insert_session resolve_session
  event-IsTable (creates wait id csrf_token user_id) es d h =
      let now = clock_after es + wait in
      let t = sessions_after es in
      let fresh =
        fresh_id id t (granted es) now (granted-none id es (not_created id es d)) (h.agreed id) in
      rw fresh (create-IsTable (new_session id csrf_token user_id now) now t (granted es) fresh h)
  event-IsTable (resolves wait id) es d h =
      request-IsTable (str_eq id "") id (clock_after es + wait) (sessions_after es) (granted es) h
  event-IsTable (destroys wait id) es d h =
      let now = clock_after es + wait in
      let t = sessions_after es in
      record {
        unique = destroy-HasUniqueIds id t h.unique;
        agreed = λ i.
            subst (λ x. Agreed now x (if str_eq id i then none else granted es i))
              (sym (find-destroy i id t))
              (same-Agreed (str_eq id i) (find_session i t) (granted es i) none now (h.agreed i));
      }
  event-IsTable (purges wait) es d h =
      let now = clock_after es + wait in
      let t = sessions_after es in
      record {
        unique = purge-HasUniqueIds now t h.unique;
        agreed = λ i.
            subst (λ x. Agreed now x (granted es i)) (sym (find-purge i now t h.unique))
              (kept-Agreed (find_session i t) (granted es i) now (h.agreed i));
      }

  sessions_after-IsTable :
      (es : List SessionEvent)
      → distinct_ids es ≡ true
      → IsTable (sessions_after es) (granted es) (clock_after es)
  unfolding sessions_after HasUniqueIds find_session
  sessions_after-IsTable [] d = record { unique = tt; agreed = λ i. inl refl }
  sessions_after-IsTable (e ∷ es) d = event-IsTable e es d (
      later-IsTable (sessions_after es) (granted es) (clock_after es) (wait_of e)
        (sessions_after-IsTable es (distinct_rest e es d)))

  -- What the promise answers for a session at a time.
  abbrev pub promised : ℕ → Option Session → Option SessionUser
  promised now none = none
  promised now (some s) = if ltb s.expires_at now then none else session_user email_of s

  answer-promised :
      (id : String) (now : ℕ) (t : Sessions) (o : Option Session)
      → (resolve_row email_of id now t (joined email_of o)).0 ≡ promised now o
  unfolding resolve_row
  answer-promised id now t none = refl
  answer-promised id now t (some s) = elim (Option-cases (email_of s.user_id)) [
    | inl f ↦ rw f (either_none (ltb s.expires_at now) none refl)
    | inr (email, f) ↦ elim (Bool-cases (ltb s.expires_at now)) [
      | inl l ↦ rw (f, l) refl
      | inr l ↦ rw (f, l) refl
    ]
  ]

  promised-Agreed :
      (now : ℕ) (o g : Option Session) → Agreed now o g → promised now o ≡ promised now g
  promised-Agreed now o g (inl e) = ap (promised now) e
  promised-Agreed now o g (inr (e, s, es, late)) =
      ap (promised now) e ∙ sym (ap (promised now) es ∙ rw (lt→ltb _ _ late) refl)

  -- After any sequence of sign-ins, requests, sign-outs and purges, a session id that a request brings
  -- resolves exactly as the promise says: to its user when the session was granted, not signed out of
  -- and has not expired, and to nobody otherwise. The deletion of expired rows is not seen. No id is
  -- given out twice, and the id is not empty.
  pub resolve_session-promised :
      (es : List SessionEvent) (wait : ℕ) (id : String)
      → distinct_ids es ≡ true
      → str_eq id "" ≡ false
      → (resolve_session email_of id (clock_after es + wait) (sessions_after es)).0
        ≡ promised (clock_after es + wait) (granted es id)
  unfolding resolve_session
  resolve_session-promised es wait id d ne =
      let now = clock_after es + wait in
      let t = sessions_after es in
      let table =
        later-IsTable t (granted es) (clock_after es) wait (sessions_after-IsTable es d) in
      rw ne (
        answer-promised id now t (find_session id t)
        ∙ promised-Agreed now (find_session id t) (granted es id) (table.agreed id))
