-- ===== src/Password/Gate/Served.antt =====
-- Every caller that the gate of src/password.ts admits gets its turn.
use musdash.Prelude.{ℕ, ◌+◌, ◌*◌, ◌≡◌, refl, ap, ◌∙◌, List, [], ◌∷◌, arith, length, length-append}
use musdash.Password.Gate.{
  Caller, Gate, resume, release_to, release, settle, Progress, goes_on, settles, Reachable,
}
use musdash.Password.Gate.Order.{IsGate, only, all_started, Reachable-IsGate}

-- What is left to do: a caller that waits or is resolved has two steps ahead, a running one has one.
unfoldable pub work : Gate → ℕ
work g = 2 * length g.queue + 2 * length g.resumed + length g.running

work-release_to :
    (q : List Caller) (g : Gate)
    → g.queue ≡ q
    → length g.running ≡ 1
    → work (release_to q (record g { running = [] })) + 1 ≡ work g
unfolding work release_to
work-release_to [] g eq e = omega (arith, ap length eq)
work-release_to (next ∷ q) g eq e = omega (arith, ap length eq, length-append g.resumed (next ∷ []))

work-resume : (c : Caller) (g : Gate) → g.resumed ≡ c ∷ [] → work (resume c [] g) + 1 ≡ work g
unfolding work resume
work-resume c g e = omega (arith, ap length e)

work-settle : (c : Caller) (g : Gate) → g.running ≡ c ∷ [] → work (settle [] g) + 1 ≡ work g
unfolding settle release
work-settle c g e = work-release_to g.queue g refl (ap length e)

progress_lowers : (bound : ℕ) (g h : Gate) → IsGate bound g → Progress g h → work h + 1 ≡ work g
progress_lowers bound g h w (goes_on before c after e eh) =
    let found = only before c after g.resumed e (omega (arith, w.one_holder, w.active_bound)) in
    ap (λ x. work x + 1) (eh ∙ ap (λ xs. resume c xs g) found.0) ∙ work-resume c g found.1
progress_lowers bound g h w (settles before c after e eh) =
    let found = only before c after g.running e (omega (arith, w.one_holder, w.active_bound)) in
    ap (λ x. work x + 1) (eh ∙ ap (λ xs. settle xs g) found.0) ∙ work-settle c g found.1

none_resumed :
    (xs : List Caller) (g : Gate) → g.resumed ≡ xs → ((h : Gate) → ¬ Progress g h) → xs ≡ []
none_resumed [] g e stuck = refl
none_resumed (c ∷ xs) g e stuck = absurd (stuck (resume c xs g) (goes_on [] c xs e refl))

none_running :
    (xs : List Caller) (g : Gate) → g.running ≡ xs → ((h : Gate) → ¬ Progress g h) → xs ≡ []
none_running [] g e stuck = refl
none_running (c ∷ xs) g e stuck = absurd (stuck (settle xs g) (settles [] c xs e refl))

-- In every state that the gate can reach, each step that its own callers take lowers the work that
-- is left by one, so that without new callers they come to an end.
pub progress-work :
    (bound : ℕ) (g h : Gate) → Reachable bound g → Progress g h → work h + 1 ≡ work g
progress-work bound g h r p = progress_lowers bound g h (Reachable-IsGate bound g r) p

-- In every state that the gate can reach and in which its callers can take no step, every admitted
-- caller's task was started, in the order of admission, and the gate is free.
pub quiet_gate_has_served :
    (bound : ℕ) (g : Gate)
    → Reachable bound g
    → ((h : Gate) → ¬ Progress g h)
    → (g.started ≡ g.admitted) × (g.active ≡ 0)
quiet_gate_has_served bound g r stuck =
    let w = Reachable-IsGate bound g r in
    let quiet = none_resumed g.resumed g refl stuck in
    let idle = none_running g.running g refl stuck in
    let free : g.active ≡ 0 = omega (arith, w.one_holder, ap length quiet, ap length idle) in
    (
      all_started g.started g.resumed g.queue g.admitted quiet (w.free-no_queue free) w.in_order,
      free,
    )
