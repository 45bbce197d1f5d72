-- ===== src/Stack/Routing/Effects.antt =====
-- What one assignment of a host does to the routes and to the claims (src/jobs/compose-plan.ts,
-- routingPlan).
use musdash.Prelude.{
  ℕ, ◌≡◌, refl, String, Bool, false, ◌||◌, Option, none, some, List, [], ◌∷◌, ◌++◌, arith,
  if◌then◌else◌, str_eq, eq_iff, ◌==◌, Bool-cases, inl, inr,
}
use musdash.Prelude.Case.{to_lower}
use musdash.Prelude.Dict.{Dict, get, set, get-set, includes, includes-append}
use musdash.Stack.Routing.{ServiceRoute, Progress, is_dashboard, port_of, add_host, assign}

abbrev pub hosts_of : Option ServiceRoute → List String
hosts_of none = []
hosts_of (some r) = r.hosts

-- Whether a service is routed on a host.
abbrev pub is_routed : String → String → Dict ServiceRoute → Bool
is_routed s h routes = includes h (hosts_of (get s routes))

pub hosts_of-add_host :
    (o : Option ServiceRoute) (port : ℕ) (host : String)
    → hosts_of (some (add_host o port host)) ≡ hosts_of o ++ host ∷ []
hosts_of-add_host none port host = refl
hosts_of-add_host (some r) port host = refl

pub is_routed-set :
    (s h service host : String) (port : ℕ) (routes : Dict ServiceRoute)
    → is_routed s h (set service (add_host (get service routes) port host) routes)
      ≡ (is_routed s h routes || (if str_eq service s then str_eq host h else false))
is_routed-set s h service host port routes = elim (Bool-cases (str_eq service s)) [
  | inl same ↦
      rw
        (
          get-set,
          same,
          hosts_of-add_host (get service routes) port host,
          includes-append h (hosts_of (get service routes)) (host ∷ []),
          (eq_iff service s).0 same,
        )
        (ground arith)
  | inr other ↦ rw (get-set, other) (ground arith)
]

-- What one assignment does to the claims and to the routes.
pub data Effect (dashboard : Option String) (host service : String) (p q : Progress) : Type 0 where
  ignored : q.routes ≡ p.routes → q.claimed ≡ p.claimed → Effect dashboard host service p q
  refused :
      is_dashboard dashboard host ≡ false
      → q.routes ≡ p.routes
      → q.claimed ≡ p.claimed ++ host ∷ []
      → Effect dashboard host service p q
  routed :
      (port : ℕ)
      → is_dashboard dashboard host ≡ false
      → includes host p.claimed ≡ false
      → q.routes ≡ set service (add_host (get service p.routes) port host) p.routes
      → q.claimed ≡ p.claimed ++ host ∷ []
      → Effect dashboard host service p q

pub assign-Effect :
    (dashboard : Option String) (raw service : String) (port : ℕ) (p : Progress)
    → Effect dashboard (to_lower raw) service p (assign dashboard raw service port p)
unfolding assign
assign-Effect dashboard raw service port p =
    elim (Bool-cases (is_dashboard dashboard (to_lower raw))) [
      | inl own ↦ rw own (ignored refl refl)
      | inr other ↦ elim (Bool-cases (includes (to_lower raw) p.claimed)) [
        | inl claimed ↦ rw (other, claimed) (ignored refl refl)
        | inr fresh ↦ elim (Bool-cases (port == port_of (get service p.ports) port)) [
          | inl agrees ↦
              rw (other, fresh, agrees)
                (routed (port_of (get service p.ports) port) other fresh refl refl)
          | inr differs ↦ rw (other, fresh, differs) (refused other refl refl)
        ]
      ]
    ]
