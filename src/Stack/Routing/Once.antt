-- ===== src/Stack/Routing/Once.antt =====
-- Each host is routed to one service, and the dashboard's own to none (src/jobs/compose-plan.ts,
-- routingPlan).
use musdash.Prelude.{
  ℕ, ◌≡◌, ◌⊎◌, refl, sym, ◌∙◌, ap, String, true, false, Option, none, some, List, [], ◌∷◌, ◌++◌,
  arith, eq_iff, map_option, Bool-cases, inl, inr,
}
use mathlib.Core.Bool.{false≢true}
use musdash.Prelude.Case.{to_lower}
use musdash.Prelude.Dict.{Dict, get, set, includes, includes-append}
use musdash.Stack.Routing.{
  RoutingDomain, ServiceRoute, Target, Progress, public_target, is_dashboard, add_host, assign,
  assign_row, assign_rows, assign_auto, initial, route_all, routing_plan,
}
use musdash.Stack.Routing.Effects.{
  is_routed, is_routed-set, Effect, ignored, refused, routed, assign-Effect,
}

-- Every routed host is claimed, by one service, and the dashboard's own host is not.
record IsOnce (dashboard : Option String) (p : Progress) : Type 0 where
  pub claimed_only : (s h : String) → is_routed s h p.routes ≡ true → includes h p.claimed ≡ true
  pub one : (s t h : String) → is_routed s h p.routes ≡ true → is_routed t h p.routes ≡ true → s ≡ t
  pub not_own : (h : String) → is_dashboard dashboard h ≡ true → includes h p.claimed ≡ false

claimed_more :
    (h host : String) (claimed : List String)
    → includes h claimed ≡ true
    → includes h (claimed ++ host ∷ []) ≡ true
claimed_more h host claimed e = rw (includes-append h claimed (host ∷ []), e)

claimed_new :
    (h host : String) (claimed : List String) → host ≡ h → includes h (claimed ++ host ∷ []) ≡ true
claimed_new h host claimed e =
    rw (includes-append h claimed (host ∷ []), (eq_iff host h).1 e) (ground arith)

own_apart :
    (dashboard : Option String) (host h : String) (claimed : List String)
    → is_dashboard dashboard host ≡ false
    → is_dashboard dashboard h ≡ true
    → includes h claimed ≡ false
    → includes h (claimed ++ host ∷ []) ≡ false
own_apart none host h claimed n y e = cc
own_apart (some d) host h claimed n y e =
    rw (includes-append h claimed (host ∷ []), e)
      (ground (arith, eq_iff host h, eq_iff host d, eq_iff h d))

new_or_old :
    (s h service host : String) (port : ℕ) (routes : Dict ServiceRoute)
    → is_routed s h (set service (add_host (get service routes) port host) routes) ≡ true
    → (is_routed s h routes ≡ true) ⊎ (service ≡ s) × (host ≡ h)
new_or_old s h service host port routes e =
    let split = rw (is_routed-set s h service host port routes) at e in
    elim (Bool-cases (is_routed s h routes)) [
      | inl old ↦ inl old
      | inr new ↦ inr (ground (arith, eq_iff service s, eq_iff host h))
    ]

routed-IsOnce :
    (dashboard : Option String) (host service : String) (port : ℕ) (p q : Progress)
    → is_dashboard dashboard host ≡ false
    → includes host p.claimed ≡ false
    → q.routes ≡ set service (add_host (get service p.routes) port host) p.routes
    → q.claimed ≡ p.claimed ++ host ∷ []
    → IsOnce dashboard p
    → IsOnce dashboard q
routed-IsOnce dashboard host service port p q apart fresh routes claimed ok = record {
  claimed_only = λ s h e. rw claimed (elim (origin s h e) [
    | inl old ↦ claimed_more h host p.claimed (ok.claimed_only s h old)
    | inr (_, new) ↦ claimed_new h host p.claimed new
  ]);
  one = λ s t h e f. elim (origin s h e) [
    | inl old ↦ elim (origin t h f) [
      | inl also ↦ ok.one s t h old also
      | inr (_, new) ↦ absurd (claimed_twice s h new old)
    ]
    | inr (same, new) ↦ elim (origin t h f) [
      | inl also ↦ absurd (claimed_twice t h new also)
      | inr (too, _) ↦ sym same ∙ too
    ]
  ];
  not_own = λ h own. rw claimed (own_apart dashboard host h p.claimed apart own (ok.not_own h own));
}
  where
    origin :
        (s h : String)
        → is_routed s h q.routes ≡ true
        → (is_routed s h p.routes ≡ true) ⊎ (service ≡ s) × (host ≡ h)
    origin s h e = new_or_old s h service host port p.routes (rw routes at e)

    claimed_twice : (s h : String) → host ≡ h → ¬ (is_routed s h p.routes ≡ true)
    claimed_twice s h new old =
        false≢true (sym fresh ∙ ap (λ x. includes x p.claimed) new ∙ ok.claimed_only s h old)

Effect-IsOnce :
    (dashboard : Option String) (host service : String) (p q : Progress)
    → Effect dashboard host service p q
    → IsOnce dashboard p
    → IsOnce dashboard q
Effect-IsOnce dashboard host service p q (ignored routes claimed) ok = record {
  claimed_only = λ s h e. rw claimed (ok.claimed_only s h (rw routes at e));
  one = λ s t h e f. ok.one s t h (rw routes at e) (rw routes at f);
  not_own = λ h own. rw claimed (ok.not_own h own);
}
Effect-IsOnce dashboard host service p q (refused apart routes claimed) ok = record {
  claimed_only =
      λ s h e. rw claimed (claimed_more h host p.claimed (ok.claimed_only s h (rw routes at e)));
  one = λ s t h e f. ok.one s t h (rw routes at e) (rw routes at f);
  not_own = λ h own. rw claimed (own_apart dashboard host h p.claimed apart own (ok.not_own h own));
}
Effect-IsOnce dashboard host service p q (routed port apart fresh routes claimed) ok =
    routed-IsOnce dashboard host service port p q apart fresh routes claimed ok

module _ (dashboard : Option String) where
  assign-IsOnce :
      (raw service : String) (port : ℕ) (p : Progress)
      → IsOnce dashboard p
      → IsOnce dashboard (assign dashboard raw service port p)
  assign-IsOnce raw service port p ok =
      Effect-IsOnce dashboard (to_lower raw) service p (assign dashboard raw service port p)
        (assign-Effect dashboard raw service port p) ok

  row-IsOnce :
      (target : Option Target) (d : RoutingDomain) (service : Option String) (port : Option ℕ)
      (p : Progress)
      → IsOnce dashboard p
      → IsOnce dashboard (assign_row dashboard target d service port p)
  row-IsOnce none d none port p ok = ok
  row-IsOnce (some t) d none port p ok = assign-IsOnce d.host t.service t.port p ok
  row-IsOnce none d (some service) none p ok = ok
  row-IsOnce (some t) d (some service) none p ok = ok
  row-IsOnce none d (some service) (some port) p ok = assign-IsOnce d.host service port p ok
  row-IsOnce (some t) d (some service) (some port) p ok = assign-IsOnce d.host service port p ok

  rows-IsOnce :
      (target : Option Target) (ds : List RoutingDomain) (p : Progress)
      → IsOnce dashboard p
      → IsOnce dashboard (assign_rows dashboard target ds p)
  unfolding assign_rows
  rows-IsOnce target [] p ok = ok
  rows-IsOnce target (d ∷ ds) p ok =
      rows-IsOnce target ds (assign_row dashboard target d d.service_name d.container_port p)
        (row-IsOnce target d d.service_name d.container_port p ok)

  auto-IsOnce :
      (target : Option Target) (auto_host : Option String) (p : Progress)
      → IsOnce dashboard p
      → IsOnce dashboard (assign_auto dashboard target auto_host p)
  auto-IsOnce none auto_host p ok = ok
  auto-IsOnce (some t) none p ok = ok
  auto-IsOnce (some t) (some host) p ok = assign-IsOnce host t.service t.port p ok

  initial-IsOnce : (target : Option Target) → IsOnce dashboard (initial target)
  unfolding get
  initial-IsOnce target = record {
    claimed_only = λ s h e. absurd (false≢true e);
    one = λ s t h e f. absurd (false≢true e);
    not_own = λ h own. refl;
  }

-- Each host is routed once, and the dashboard's own host never: whatever the rows and the auto
-- host, two services that are routed on one host are the same service, and the host is not the
-- dashboard's, lower-cased.
pub routing_plan_once :
    (domains : List RoutingDomain) (public_service : Option String) (public_port : Option ℕ)
    (auto_host dashboard_host : Option String) (s t h : String)
    → is_routed s h
        (routing_plan domains public_service public_port auto_host dashboard_host).routes
      ≡ true
    → is_routed t h
        (routing_plan domains public_service public_port auto_host dashboard_host).routes
      ≡ true
    → (s ≡ t) × (is_dashboard (map_option to_lower dashboard_host) h ≡ false)
unfolding routing_plan route_all
routing_plan_once domains public_service public_port auto_host dashboard_host s t h e f =
    let dashboard = map_option to_lower dashboard_host in
    let target = public_target public_service public_port in
    let ok =
      auto-IsOnce dashboard target auto_host (assign_rows dashboard target domains (initial target))
        (rows-IsOnce dashboard target domains (initial target) (initial-IsOnce dashboard target)) in
    (
      ok.one s t h e f,
      elim (Bool-cases (is_dashboard dashboard h)) [
        | inl own ↦ absurd (false≢true (sym (ok.not_own h own) ∙ ok.claimed_only s h e))
        | inr apart ↦ apart
      ],
    )
