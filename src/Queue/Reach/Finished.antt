-- ===== src/Queue/Reach/Finished.antt =====
-- A finished job is left alone (src/queue/index.ts, src/queue/worker.ts).
use mathlib.Core.Option.{some-injective}
use musdash.Prelude.{
  ◌≡◌, subst, sym, ◌∙◌, ap, ◌⊎◌, inl, inr, String, true, none, some, arith, Option-cases,
}
use musdash.Queue.Table.{Job, leased, is_finished, get_job}
use musdash.Queue.Reach.{World, Step, Reach, start}
use musdash.Queue.Reach.Lifecycle.{
  Evolves, kept, taken, finished, failed_at, released, stopped, Origin, Step-Origin,
}
use musdash.Queue.Reach.Invariant.{none-ne-some, Inv, held_of_running, Reach-Inv}

terminal_evolves :
    (w v : World) (j j' : Job)
    → is_finished j.status ≡ true
    → (w.running ≡ some j.id → j.status ≡ leased)
    → Evolves w v j j'
    → j' ≡ j
terminal_evolves w v j j' f active (kept e) = e
terminal_evolves w v j j' f active (taken now p r e) = ground arith
terminal_evolves w v j j' f active (finished r e) = ground (arith, active r)
terminal_evolves w v j j' f active (failed_at error now r e) = ground (arith, active r)
terminal_evolves w v j j' f active (released l r e) = ground arith
terminal_evolves w v j j' f active (stopped p e) = ground arith

terminal-Origin :
    (w v : World) (k : String) (j j' : Job)
    → Inv w
    → get_job k w.rows ≡ some j
    → is_finished j.status ≡ true
    → Origin w v k j'
    → j' ≡ j
terminal-Origin w v k j j' inv stored f (inl (fresh, _, _)) =
    absurd (none-ne-some j (sym fresh ∙ stored))
terminal-Origin w v k j j' inv stored f (inr (j₂, stored₂, ev)) =
    let same : j₂ ≡ j = some-injective _ _ (sym stored₂ ∙ stored) in
    terminal_evolves w v j j' f (held_of_running w k j inv stored)
      (subst (λ x. Evolves w v x j') same ev)

-- A job that is done, failed or cancelled stays exactly as it is until it is pruned: after any
-- step from a state that an empty queue reaches, its row is gone or the same. So a cancelled
-- job never runs.
pub finished_stays :
    (w v : World) (k : String) (j : Job)
    → Reach start w
    → Step w v
    → get_job k w.rows ≡ some j
    → is_finished j.status ≡ true
    → (get_job k v.rows ≡ none) ⊎ (get_job k v.rows ≡ some j)
finished_stays w v k j r st stored f = elim (Option-cases (get_job k v.rows)) [
  | inl e ↦ inl e
  | inr (j', e) ↦
      let inv = Reach-Inv w r in
      inr (
        e
        ∙ ap some (terminal-Origin w v k j j' inv stored f (Step-Origin w v k j' inv.unique st e)))
]
