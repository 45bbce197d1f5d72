-- ===== src/Password/Tests.antt =====
-- Tests of the gate (src/password.ts): three callers at a gate where one may wait.
use musdash.Prelude.{ℕ, ◌+◌, ◌≤◌, ◌≡◌, refl, false, List, [], ◌∷◌, ◌++◌, length, ap, arith}
use musdash.Password.Gate.{
  Gate, create_gate, run, resume, release_to, release, settle, arrives, proceeds, Progress, goes_on,
  settles, Reachable, created, then_step,
}
use musdash.Password.Gate.Order.{IsGate, Reachable-IsGate}
use musdash.Password.Gate.Served.{work, progress-work, quiet_gate_has_served}
use musdash.Password.Busy.{
  BusyEvent, rejection, window_ends, after_events, reported, every_rejection_is_told,
}

abbrev three_callers : Gate
three_callers = run 1 3 (run 1 2 (run 1 1 create_gate))

Reachable-three : Reachable 1 three_callers
Reachable-three =
    then_step (then_step (then_step created (arrives 1 refl)) (arrives 2 refl)) (arrives 3 refl)

abbrev handed_over : Gate
handed_over = settle [] three_callers

Reachable-handed_over : Reachable 1 handed_over
unfolding run create_gate
Reachable-handed_over = then_step Reachable-three (proceeds (settles [] 1 [] refl refl))

Reachable-IsGate_example : IsGate 1 handed_over
Reachable-IsGate_example = Reachable-IsGate 1 handed_over Reachable-handed_over

abbrev last_runs : Gate
last_runs = resume 2 [] handed_over

progress-work_example : work last_runs + 1 ≡ work handed_over
unfolding run create_gate settle release release_to
progress-work_example =
    progress-work 1 handed_over last_runs Reachable-handed_over (goes_on [] 2 [] refl refl)

nil_is_no_cons : (before after : List ℕ) (c : ℕ) → ¬ ([] ≡ before ++ (c ∷ after))
nil_is_no_cons [] after c e = omega (arith, ap length e)
nil_is_no_cons (b ∷ before) after c e = omega (arith, ap length e)

abbrev one_done : Gate
one_done = settle [] (run 1 1 create_gate)

Reachable-one_done : Reachable 1 one_done
unfolding run create_gate
Reachable-one_done =
    then_step (then_step created (arrives 1 refl)) (proceeds (settles [] 1 [] refl refl))

quiet_when_done : (h : Gate) → ¬ Progress one_done h
unfolding run create_gate settle release release_to
quiet_when_done h (goes_on before c after e eh) = nil_is_no_cons before after c e
quiet_when_done h (settles before c after e eh) = nil_is_no_cons before after c e

quiet_gate_has_served_example : (one_done.started ≡ one_done.admitted) × (one_done.active ≡ 0)
quiet_gate_has_served_example = quiet_gate_has_served 1 one_done Reachable-one_done quiet_when_done

abbrev busy_day : List BusyEvent
busy_day = rejection ∷ window_ends ∷ rejection ∷ rejection ∷ []

every_rejection_is_told_example :
    (reported (after_events busy_day).lines + (after_events busy_day).rejected ≡ 3)
    × ((after_events busy_day).timer ≡ false → (after_events busy_day).rejected ≡ 0)
    × (length (after_events busy_day).lines ≤ 2)
every_rejection_is_told_example = every_rejection_is_told busy_day
