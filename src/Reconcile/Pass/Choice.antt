-- ===== src/Reconcile/Pass/Choice.antt =====
-- Which container stands for a resource in a pass of the reconciler (src/reconciler.ts): a running one
-- wherever there is one.
use musdash.Prelude.{
  ◌≡◌, refl, sym, ap, ◌∙◌, subst, String, Bool, true, false, ◌&&◌, not, Option, none, some, List,
  [], ◌∷◌, any, inl, inr, Bool-cases, str_eq, eq_iff, arith,
}
use mathlib.Core.Bool.{false≢true}
use musdash.Prelude.Dict.{Dict, get, get-set}
use musdash.Volumes.Select.{label_resource}
use musdash.Reconcile.Pass.{
  ManagedContainer, truthy, is_stack_container, is_better, put_better, map_container, by_resource,
  is_text, is_running,
}

not_better :
    (c : ManagedContainer) (o : Option ManagedContainer)
    → is_running o ≡ true
    → is_better c o ≡ false
unfolding is_better
not_better c none h = absurd (false≢true h)
not_better c (some e) h = rw h (ground arith)

better_or_running :
    (c : ManagedContainer) (o : Option ManagedContainer)
    → c.running ≡ true
    → is_better c o ≡ false
    → is_running o ≡ true
unfolding is_better
better_or_running c none h e = absurd (false≢true (sym e))
better_or_running c (some x) h e = ground (arith, h, e)

put_better-keeps :
    (id key : String) (c : ManagedContainer) (found : Dict ManagedContainer)
    → is_running (get id found) ≡ true
    → is_running (get id (put_better key c found)) ≡ true
unfolding put_better
put_better-keeps id key c found h = elim (Bool-cases (is_better c (get key found))) [
  | inr e ↦ rw e h
  | inl e ↦ elim (Bool-cases (str_eq key id)) [
    | inr f ↦ rw (e, get-set key id c found, f) h
    | inl f ↦
        let same = ap (λ k. get k found) ((eq_iff key id).0 f) in
        absurd (false≢true (sym (not_better c (get key found) (ap is_running same ∙ h)) ∙ e))
  ]
]

put_better-gains :
    (id : String) (c : ManagedContainer) (found : Dict ManagedContainer)
    → c.running ≡ true
    → is_running (get id (put_better id c found)) ≡ true
unfolding put_better
put_better-gains id c found h = elim (Bool-cases (is_better c (get id found))) [
  | inr e ↦ rw e (better_or_running c (get id found) h e)
  | inl e ↦ rw (e, get-set id id c found, (eq_iff id id).1 refl) h
]

-- The container carries the id, is no stack's, and runs.
abbrev pub own_running : String → ManagedContainer → Bool
own_running id c =
    is_text (truthy (get label_resource c.labels)) id && (not (is_stack_container c) && c.running)

map_container-keeps :
    (id : String) (c : ManagedContainer) (o : Option String) (found : Dict ManagedContainer)
    → is_running (get id found) ≡ true
    → is_running (get id (map_container c o found)) ≡ true
unfolding map_container
map_container-keeps id c none found h = h
map_container-keeps id c (some rid) found h = elim (Bool-cases (is_stack_container c)) [
  | inl e ↦ rw e h
  | inr e ↦ rw e (put_better-keeps id rid c found h)
]

map_container-gains :
    (id : String) (c : ManagedContainer) (o : Option String) (found : Dict ManagedContainer)
    → (is_text o id && (not (is_stack_container c) && c.running)) ≡ true
    → is_running (get id (map_container c o found)) ≡ true
unfolding map_container
map_container-gains id c none found h = absurd (false≢true h)
map_container-gains id c (some rid) found h = elim (Bool-cases (str_eq rid id)) [
  | inr e ↦ absurd (false≢true (rw e at h))
  | inl e ↦ elim (Bool-cases (is_stack_container c)) [
    | inl f ↦ absurd (false≢true (rw (e, f) at h))
    | inr f ↦ rw f (
        subst (λ k. is_running (get id (put_better k c found)) ≡ true) (sym ((eq_iff rid id).0 e))
          (put_better-gains id c found (rw (e, f) at h)))
  ]
]

by_resource-keeps :
    (id : String) (cs : List ManagedContainer) (found : Dict ManagedContainer)
    → is_running (get id found) ≡ true
    → is_running (get id (by_resource cs found)) ≡ true
unfolding by_resource
by_resource-keeps id [] found h = h
by_resource-keeps id (c ∷ cs) found h =
    by_resource-keeps id cs _
      (map_container-keeps id c (truthy (get label_resource c.labels)) found h)

pub by_resource-running :
    (id : String) (cs : List ManagedContainer) (found : Dict ManagedContainer)
    → any (own_running id) cs ≡ true
    → is_running (get id (by_resource cs found)) ≡ true
unfolding by_resource
by_resource-running id [] found h = absurd (false≢true h)
by_resource-running id (c ∷ cs) found h = elim (Bool-cases (own_running id c)) [
  | inl e ↦
      by_resource-keeps id cs _
        (map_container-gains id c (truthy (get label_resource c.labels)) found e)
  | inr e ↦ by_resource-running id cs _ (rw e at h)
]
