-- ===== src/Password/Gate.antt =====
-- createGate (src/password.ts) as a transition system: callers arrive, the promise of a waiting
-- caller is resolved and its continuation runs later, and tasks settle. A caller is a number. Beside
-- the two variables of the closure the state says which caller is at which point of `run`, and keeps
-- the order in which callers were let in and were started.
pub mod Order
pub mod Served
use musdash.Prelude.{
  ℕ, suc, zero, ◌≡◌, Bool, true, false, List, [], ◌∷◌, ◌++◌, if◌then◌else◌, ◌==◌, leb, length,
}

abbrev pub Caller : Type 0
Caller = ℕ

pub record Gate : Type 0 where
  pub active : ℕ
  -- The resolvers of the callers that wait, first in front.
  pub queue : List Caller
  -- Resolved, with the continuation after `await` still to run.
  pub resumed : List Caller
  -- At `await task()`.
  pub running : List Caller
  -- All that were not rejected, and all whose task was started, first in front.
  pub admitted : List Caller
  pub started : List Caller
  pub rejected : List Caller

abbrev pub max_waiting : ℕ
max_waiting = 8

unfoldable pub create_gate : Gate
create_gate = record {
  active = 0;
  queue = [];
  resumed = [];
  running = [];
  admitted = [];
  started = [];
  rejected = [];
}

-- return await task(), up to the await.
abbrev pub start : Caller → Gate → Gate
start c g = record g { running = c ∷ g.running; started = g.started ++ (c ∷ []) }

-- run, from the call to its first await or its throw.
unfoldable pub run : ℕ → Caller → Gate → Gate
run bound c g =
    if g.active == 0
    then start c (record g { active = 1; admitted = g.admitted ++ (c ∷ []) })
    else if leb bound (length g.queue)
    then record g { rejected = c ∷ g.rejected }
    else record g { queue = g.queue ++ (c ∷ []); admitted = g.admitted ++ (c ∷ []) }

-- The continuation of a caller whose promise was resolved.
unfoldable pub resume : Caller → List Caller → Gate → Gate
resume c others g = start c (record g { resumed = others })

unfoldable pub release_to : List Caller → Gate → Gate
release_to [] g = record g { active = 0 }
release_to (next ∷ queue) g = record g { queue = queue; resumed = g.resumed ++ (next ∷ []) }

unfoldable pub release : Gate → Gate
unfolding release_to
release g = release_to g.queue g

-- A task settles, which ends its caller: finally { release() }.
unfoldable pub settle : List Caller → Gate → Gate
unfolding release
settle others g = release (record g { running = others })

-- What the gate's own callers do next: a resolved one goes on, or a task settles.
pub data Progress (g h : Gate) : Type 0 where
  goes_on :
      (before : List Caller) (c : Caller) (after : List Caller)
      → g.resumed ≡ before ++ (c ∷ after)
      → h ≡ resume c (before ++ after) g
      → Progress g h
  settles :
      (before : List Caller) (c : Caller) (after : List Caller)
      → g.running ≡ before ++ (c ∷ after)
      → h ≡ settle (before ++ after) g
      → Progress g h

-- At any moment another caller may arrive.
pub data Step (bound : ℕ) (g h : Gate) : Type 0 where
  arrives : (c : Caller) → h ≡ run bound c g → Step bound g h
  proceeds : Progress g h → Step bound g h

pub data Reachable (bound : ℕ) : Gate → Type 0 where
  created : Reachable bound create_gate
  then_step : {g h : Gate} → Reachable bound g → Step bound g h → Reachable bound h
