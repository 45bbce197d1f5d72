-- ===== src/Password/Gate/Order.antt =====
-- What the gate of src/password.ts keeps in every state that it can reach.
use musdash.Prelude.{
  ℕ, ◌+◌, ◌≤◌, ◌≡◌, refl, sym, ap, ap₂, ◌∙◌, subst, false, List, [], ◌∷◌, ◌++◌, arith, ◌==◌, leb,
  length, length-append, append_assoc, append-nil, inl, inr, ==_iff, Bool-cases,
}
use musdash.Password.Gate.{
  Caller, Gate, start, create_gate, run, resume, release_to, release, settle, Progress, goes_on,
  settles, Step, arrives, proceeds, Reachable, created, then_step,
}

-- One task at most holds the slot, running or about to run, exactly when the gate is active; nobody
-- waits at a free gate and at most `bound` callers wait; callers are started in the order in which
-- they were admitted.
pub record IsGate (bound : ℕ) (g : Gate) : Type 0 where
  pub one_holder : length g.running + length g.resumed ≡ g.active
  pub active_bound : g.active ≤ 1
  pub free-no_queue : g.active ≡ 0 → g.queue ≡ []
  pub queue_bound : length g.queue ≤ bound
  pub in_order : g.started ++ (g.resumed ++ g.queue) ≡ g.admitted

create_gate-IsGate : (bound : ℕ) → IsGate bound create_gate
unfolding create_gate
create_gate-IsGate bound = record {
  one_holder = refl;
  active_bound = omega arith;
  free-no_queue = λ e. refl;
  queue_bound = omega arith;
  in_order = refl;
}

too_long :
    (xs : List Caller) (c d : Caller) (ys : List Caller) → xs ≡ c ∷ d ∷ ys → length xs ≤ 1 → ⊥
too_long xs c d ys e h = omega (arith, ap length e)

holder_active :
    (running : List Caller) (c : Caller) (resumed : List Caller) (active : ℕ)
    → running ≡ c ∷ []
    → length running + length resumed ≡ active
    → active ≡ 0
    → ⊥
holder_active running c resumed active e h f = omega (arith, ap length e)

-- A list of one element at most, in which one is found, is that one.
pub only :
    (before : List Caller) (c : Caller) (after : List Caller) (xs : List Caller)
    → xs ≡ before ++ (c ∷ after)
    → length xs ≤ 1
    → (before ++ after ≡ []) × (xs ≡ c ∷ [])
only [] c [] xs e h = (refl, e)
only [] c (d ∷ after) xs e h = absurd (too_long xs c d after e h)
only (b ∷ []) c after xs e h = absurd (too_long xs b c after e h)
only (b ∷ d ∷ before) c after xs e h = absurd (too_long xs b d (before ++ (c ∷ after)) e h)

-- At a gate where nobody is about to run and nobody waits, all that were admitted were started.
pub all_started :
    (started resumed queue admitted : List Caller)
    → resumed ≡ []
    → queue ≡ []
    → started ++ (resumed ++ queue) ≡ admitted
    → started ≡ admitted
all_started started resumed queue admitted er eq h =
    sym (append-nil started) ∙ ap (λ x. started ++ x) (sym (ap₂ (λ x y. x ++ y) er eq)) ∙ h

pub no_callers : (xs : List Caller) → length xs ≡ 0 → xs ≡ []
no_callers [] h = refl
no_callers (x ∷ xs) h = absurd (omega (arith, h))

run-idle :
    (bound : ℕ) (c : Caller) (g : Gate)
    → g.active ≡ 0
    → IsGate bound g
    → IsGate bound (start c (record g { active = 1; admitted = g.admitted ++ (c ∷ []) }))
run-idle bound c g e h =
    let none_resumed = no_callers g.resumed (omega (arith, h.one_holder)) in
    let none_waiting = h.free-no_queue e in
    record {
      one_holder = omega (arith, h.one_holder);
      active_bound = omega arith;
      free-no_queue = λ f. none_waiting;
      queue_bound = h.queue_bound;
      in_order =
          rw (none_resumed, none_waiting)
            (append-nil (g.started ++ (c ∷ []))
              ∙ ap (λ x. x ++ (c ∷ []))
                  (all_started g.started g.resumed g.queue g.admitted none_resumed none_waiting
                    h.in_order));
    }

run-waits :
    (bound : ℕ) (c : Caller) (g : Gate)
    → (g.active == 0) ≡ false
    → leb bound (length g.queue) ≡ false
    → IsGate bound g
    → IsGate bound (record g { queue = g.queue ++ (c ∷ []); admitted = g.admitted ++ (c ∷ []) })
run-waits bound c g busy room h = record {
  one_holder = h.one_holder;
  active_bound = h.active_bound;
  free-no_queue = λ e. ground (arith, busy, e);
  queue_bound = rw (length-append g.queue (c ∷ [])) (ground (arith, room));
  in_order =
      ap (λ x. g.started ++ x) (sym (append_assoc g.resumed g.queue (c ∷ [])))
      ∙ sym (append_assoc g.started (g.resumed ++ g.queue) (c ∷ []))
      ∙ ap (λ x. x ++ (c ∷ [])) h.in_order;
}

run-IsGate : (bound : ℕ) (c : Caller) (g : Gate) → IsGate bound g → IsGate bound (run bound c g)
unfolding run
run-IsGate bound c g h = elim (Bool-cases (g.active == 0)) [
  | inl e ↦ rw e (run-idle bound c g ((==_iff g.active 0).0 e) h)
  | inr e ↦ elim (Bool-cases (leb bound (length g.queue))) [
    | inl full ↦
        rw (e, full)
          (record {
            one_holder = h.one_holder;
            active_bound = h.active_bound;
            free-no_queue = h.free-no_queue;
            queue_bound = h.queue_bound;
            in_order = h.in_order;
          })
    | inr room ↦ rw (e, room) (run-waits bound c g e room h)
  ]
]

resume-IsGate :
    (bound : ℕ) (c : Caller) (g : Gate)
    → g.resumed ≡ c ∷ []
    → IsGate bound g
    → IsGate bound (resume c [] g)
unfolding resume
resume-IsGate bound c g e h = record {
  one_holder = omega (arith, h.one_holder, ap length e);
  active_bound = h.active_bound;
  free-no_queue = h.free-no_queue;
  queue_bound = h.queue_bound;
  in_order =
      append_assoc g.started (c ∷ []) g.queue
      ∙ ap (λ r. g.started ++ (r ++ g.queue)) (sym e)
      ∙ h.in_order;
}

release_to-IsGate :
    (bound : ℕ) (c : Caller) (q : List Caller) (g : Gate)
    → g.queue ≡ q
    → g.running ≡ c ∷ []
    → IsGate bound g
    → IsGate bound (release_to q (record g { running = [] }))
unfolding release_to
release_to-IsGate bound c [] g eq e h = record {
  one_holder = omega (arith, h.one_holder, h.active_bound, ap length e);
  active_bound = omega arith;
  free-no_queue = λ f. eq;
  queue_bound = h.queue_bound;
  in_order = h.in_order;
}
release_to-IsGate bound c (next ∷ q) g eq e h = record {
  one_holder =
      omega (arith, h.one_holder, h.active_bound, ap length e, length-append g.resumed (next ∷ []));
  active_bound = h.active_bound;
  free-no_queue = λ f. absurd (holder_active g.running c g.resumed g.active e h.one_holder f);
  queue_bound = omega (arith, h.queue_bound, ap length eq);
  in_order =
      ap (λ x. g.started ++ x)
        (append_assoc g.resumed (next ∷ []) q ∙ ap (λ x. g.resumed ++ x) (sym eq))
      ∙ h.in_order;
}

settle-IsGate :
    (bound : ℕ) (c : Caller) (g : Gate)
    → g.running ≡ c ∷ []
    → IsGate bound g
    → IsGate bound (settle [] g)
unfolding settle release
settle-IsGate bound c g e h = release_to-IsGate bound c g.queue g refl e h

Progress-IsGate : (bound : ℕ) (g h : Gate) → IsGate bound g → Progress g h → IsGate bound h
Progress-IsGate bound g h w (goes_on before c after e eh) =
    let found = only before c after g.resumed e (omega (arith, w.one_holder, w.active_bound)) in
    subst (IsGate bound) (sym (eh ∙ ap (λ xs. resume c xs g) found.0))
      (resume-IsGate bound c g found.1 w)
Progress-IsGate bound g h w (settles before c after e eh) =
    let found = only before c after g.running e (omega (arith, w.one_holder, w.active_bound)) in
    subst (IsGate bound) (sym (eh ∙ ap (λ xs. settle xs g) found.0))
      (settle-IsGate bound c g found.1 w)

Step-IsGate : (bound : ℕ) (g h : Gate) → IsGate bound g → Step bound g h → IsGate bound h
Step-IsGate bound g h w (arrives c eh) = subst (IsGate bound) (sym eh) (run-IsGate bound c g w)
Step-IsGate bound g h w (proceeds p) = Progress-IsGate bound g h w p

-- In every state that the gate can reach, however arrivals, continuations and settled tasks follow
-- one another: one task at most runs or is about to, nobody waits at a free gate, at most `bound`
-- callers wait, and the tasks were started in the order in which their callers were admitted.
pub Reachable-IsGate : (bound : ℕ) (g : Gate) → Reachable bound g → IsGate bound g
Reachable-IsGate bound g created = create_gate-IsGate bound
Reachable-IsGate bound h (then_step {g} r s) = Step-IsGate bound g h (Reachable-IsGate bound g r) s
