-- ===== src/Password/Busy.antt =====
-- The warnings about a full gate (src/password.ts): noteBusy, startBusyWindow and flushBusy, with the
-- timer as a flag, and needsRehash.
use musdash.Prelude.{
  ℕ, suc, ◌+◌, ◌≤◌, ◌≡◌, refl, String, Bool, true, false, not, List, [], ◌∷◌, arith, if◌then◌else◌,
  ◌==◌, length, starts_with, inl, inr, sym, ap, ==_iff, Bool-cases,
}
use mathlib.Core.Bool.{false≢true}
use Prim.Native.String.{◌++◌ as ◌+s◌}
use musdash.Prelude.Show.{show}

abbrev pub memory_cost : ℕ
memory_cost = 7168

abbrev pub time_cost : ℕ
time_cost = 5

pub data Warning : Type 0 where
  gate_full : Warning
  further_rejected : (rejected : ℕ) → Warning

-- busyTimer !== null, busyRejected, and what was logged, last in front.
pub record Busy : Type 0 where
  pub timer : Bool
  pub rejected : ℕ
  pub lines : List Warning

unfoldable pub quiet : Busy
quiet = record { timer = false; rejected = 0; lines = [] }

abbrev pub start_window : Busy → Busy
start_window b = record b { timer = true }

unfoldable pub note_busy : Busy → Busy
note_busy b =
    if b.timer
    then record b { rejected = b.rejected + 1 }
    else start_window (record b { lines = gate_full ∷ b.lines })

unfoldable pub flush_busy : Busy → Busy
flush_busy b =
    let closed = record b { timer = false; rejected = 0 } in
    if b.rejected == 0
    then closed
    else start_window (record closed { lines = further_rejected b.rejected ∷ b.lines })

-- A caller is rejected, or the window's timer fires, which it does only when it is set.
pub data BusyEvent : Type 0 where
  rejection : BusyEvent
  window_ends : BusyEvent

unfoldable pub on_event : BusyEvent → Busy → Busy
unfolding note_busy flush_busy
on_event rejection b = note_busy b
on_event window_ends b = if b.timer then flush_busy b else b

-- The last event is in front.
unfoldable pub after_events : List BusyEvent → Busy
unfolding on_event quiet
after_events [] = quiet
after_events (e ∷ es) = on_event e (after_events es)

-- How many rejections the log tells of.
abbrev pub reported : List Warning → ℕ
reported [] = 0
reported (gate_full ∷ ws) = suc (reported ws)
reported (further_rejected n ∷ ws) = n + reported ws

abbrev pub rejections : List BusyEvent → ℕ
rejections [] = 0
rejections (rejection ∷ es) = suc (rejections es)
rejections (window_ends ∷ es) = rejections es

abbrev pub window_ends_in : List BusyEvent → ℕ
window_ends_in [] = 0
window_ends_in (rejection ∷ es) = window_ends_in es
window_ends_in (window_ends ∷ es) = suc (window_ends_in es)

abbrev open_windows : Bool → ℕ
open_windows true = 1
open_windows false = 0

window_bound : (n m : ℕ) (timer : Bool) → n ≤ m + open_windows timer → n ≤ m + 1
window_bound n m true h = h
window_bound n m false h = omega arith

record Accounts (es : List BusyEvent) (b : Busy) : Type 0 where
  all_told : reported b.lines + b.rejected ≡ rejections es
  none_forgotten : b.timer ≡ false → b.rejected ≡ 0
  lines_bound : length b.lines ≤ window_ends_in es + open_windows b.timer

rejection-Accounts :
    (es : List BusyEvent) (b : Busy) → Accounts es b → Accounts (rejection ∷ es) (note_busy b)
unfolding note_busy
rejection-Accounts es b h = elim (Bool-cases b.timer) [
  | inl e ↦ rw e (record {
    all_told = omega (arith, h.all_told);
    none_forgotten = λ f. absurd (false≢true (sym f));
    lines_bound = omega (arith, h.lines_bound, ap open_windows e);
  })
  | inr e ↦ rw e (record {
    all_told = omega (arith, h.all_told);
    none_forgotten = λ f. h.none_forgotten e;
    lines_bound = omega (arith, h.lines_bound, ap open_windows e);
  })
]

window_ends-Accounts :
    (es : List BusyEvent) (b : Busy)
    → Accounts es b
    → Accounts (window_ends ∷ es) (on_event window_ends b)
unfolding on_event flush_busy
window_ends-Accounts es b h = elim (Bool-cases b.timer) [
  | inl e ↦ elim (Bool-cases (b.rejected == 0)) [
    | inl z ↦
        rw (e, z)
          (record {
            all_told = omega (arith, h.all_told, (==_iff b.rejected 0).0 z);
            none_forgotten = λ f. refl;
            lines_bound = omega (arith, h.lines_bound, ap open_windows e);
          })
    | inr z ↦
        rw (e, z)
          (record {
            all_told = omega (arith, h.all_told);
            none_forgotten = λ f. refl;
            lines_bound = omega (arith, h.lines_bound, ap open_windows e);
          })
  ]
  | inr e ↦ rw e (record {
    all_told = h.all_told;
    none_forgotten = λ f. h.none_forgotten e;
    lines_bound = omega (arith, h.lines_bound, ap open_windows e);
  })
]

after_events-Accounts : (es : List BusyEvent) → Accounts es (after_events es)
unfolding after_events quiet
after_events-Accounts [] = record {
  all_told = refl;
  none_forgotten = λ f. refl;
  lines_bound = omega arith;
}
after_events-Accounts (rejection ∷ es) =
    rejection-Accounts es (after_events es) (after_events-Accounts es)
after_events-Accounts (window_ends ∷ es) =
    window_ends-Accounts es (after_events es) (after_events-Accounts es)

-- After any sequence of rejections and ends of windows: the log and the counter tell of every
-- rejection once, the counter is 0 when no window is open, and the log has at most one line more
-- than windows that ended.
pub every_rejection_is_told :
    (es : List BusyEvent)
    → (reported (after_events es).lines + (after_events es).rejected ≡ rejections es)
      × ((after_events es).timer ≡ false → (after_events es).rejected ≡ 0)
      × (length (after_events es).lines ≤ window_ends_in es + 1)
every_rejection_is_told es =
    let h = after_events-Accounts es in
    (h.all_told, h.none_forgotten, window_bound _ _ (after_events es).timer h.lines_bound)

-- `$argon2id$v=19$m=7168,t=5,p=1$`, from ARGON2_PARAMS.
abbrev current_prefix : String
current_prefix = "$argon2id$v=19$m=" +s show memory_cost +s ",t=" +s show time_cost +s ",p=1$"

unfoldable pub needs_rehash : String → Bool
needs_rehash hash = not (starts_with hash current_prefix)
