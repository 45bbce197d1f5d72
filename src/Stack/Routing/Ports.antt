-- ===== src/Stack/Routing/Ports.antt =====
-- A service has one port (src/jobs/compose-plan.ts): the routing plan and servicePortFor agree.
use mathlib.Core.Option.{some-injective}
use musdash.Prelude.{
  ℕ, ◌≡◌, ◌≢◌, ◌⊎◌, Option-cases, refl, sym, ◌∙◌, ap, String, Option, none, some, List, [], ◌∷◌,
  arith, if◌then◌else◌, str_eq, eq_iff, Bool-cases, inl, inr, map_option,
}
use musdash.Prelude.Case.{to_lower}
use musdash.Prelude.Dict.{Dict, get, set, get-set}
use musdash.Stack.Routing.{
  RoutingDomain, ServiceRoute, Target, Progress, public_target, port_of, fix_port, add_host, assign,
  assign_row, assign_rows, assign_auto, initial_ports, initial, routing_plan, row_port, or_else,
  first_port, public_port_for, service_port_for,
}

abbrev port_if : String → ℕ → String → Option ℕ
port_if service port s = if str_eq service s then some port else none

get-fix_port :
    (o : Option ℕ) (service s : String) (port : ℕ) (ports : Dict ℕ)
    → get service ports ≡ o
    → get s (fix_port o service port ports) ≡ or_else (get s ports) (port_if service port s)
get-fix_port none service s port ports e = rw get-set (ground (arith, eq_iff service s))
get-fix_port (some n) service s port ports e = ground (arith, eq_iff service s)

module _ (dashboard : Option String) where
  ports-assign :
      (host service : String) (port : ℕ) (p : Progress)
      → (assign dashboard host service port p).ports
        ≡ fix_port (get service p.ports) service port p.ports
  unfolding assign
  ports-assign host service port p = ground arith

  pub get-assign_ports :
      (host service s : String) (port : ℕ) (p : Progress)
      → get s (assign dashboard host service port p).ports
        ≡ or_else (get s p.ports) (port_if service port s)
  get-assign_ports host service s port p =
      ap (get s) (ports-assign host service port p)
      ∙ get-fix_port (get service p.ports) service s port p.ports refl

  -- The public service's port is fixed from the start.
  abbrev IsFixed : Option Target → Dict ℕ → Type 0
  IsFixed none ports = Unit
  IsFixed (some t) ports = get t.service ports ≡ some t.port

  row_step :
      (target : Option Target) (d : RoutingDomain) (service : Option String) (port : Option ℕ)
      (s : String) (p : Progress)
      → IsFixed target p.ports
      → get s (assign_row dashboard target d service port p).ports
        ≡ or_else (get s p.ports) (row_port s service port)
  row_step none d none port s p h = ground arith
  row_step (some t) d none port s p h =
      get-assign_ports d.host t.service s t.port p ∙ ground (arith, eq_iff t.service s)
  row_step none d (some service) none s p h = ground arith
  row_step (some t) d (some service) none s p h = ground arith
  row_step none d (some service) (some port) s p h = get-assign_ports d.host service s port p
  row_step (some t) d (some service) (some port) s p h = get-assign_ports d.host service s port p

  row_IsFixed :
      (target : Option Target) (d : RoutingDomain) (p : Progress)
      → IsFixed target p.ports
      → IsFixed target (assign_row dashboard target d d.service_name d.container_port p).ports
  row_IsFixed none d p h = tt
  row_IsFixed (some t) d p h =
      row_step (some t) d d.service_name d.container_port t.service p h ∙ rw h

  rows_IsFixed :
      (target : Option Target) (ds : List RoutingDomain) (p : Progress)
      → IsFixed target p.ports
      → IsFixed target (assign_rows dashboard target ds p).ports
  unfolding assign_rows
  rows_IsFixed target [] p h = h
  rows_IsFixed target (d ∷ ds) p h =
      rows_IsFixed target ds (assign_row dashboard target d d.service_name d.container_port p)
        (row_IsFixed target d p h)

  or_else_assoc : (a b c : Option ℕ) → or_else (or_else a b) c ≡ or_else a (or_else b c)
  or_else_assoc none b c = refl
  or_else_assoc (some n) b c = refl

  rows_ports :
      (target : Option Target) (s : String) (ds : List RoutingDomain) (p : Progress)
      → IsFixed target p.ports
      → get s (assign_rows dashboard target ds p).ports
        ≡ or_else (get s p.ports) (first_port ds s none)
  unfolding assign_rows first_port
  rows_ports target s [] p h = ground arith
  rows_ports target s (d ∷ ds) p h =
      rows_ports target s ds (assign_row dashboard target d d.service_name d.container_port p)
        (row_IsFixed target d p h)
      ∙ ap (λ o. or_else o (first_port ds s none))
          (row_step target d d.service_name d.container_port s p h)
      ∙ or_else_assoc (get s p.ports) (row_port s d.service_name d.container_port)
          (first_port ds s none)

  -- Every route dials the port that its service is fixed on.
  abbrev RoutesAgree : Progress → Type 0
  RoutesAgree p =
      (s : String) (r : ServiceRoute) → get s p.routes ≡ some r → get s p.ports ≡ some r.port

  routes-assign :
      (host service : String) (port : ℕ) (p : Progress)
      → ((assign dashboard host service port p).routes ≡ p.routes)
        ⊎ ((assign dashboard host service port p).routes
            ≡ set service
                (add_host
                  (get service p.routes)
                  (port_of (get service p.ports) port)
                  (to_lower host))
                p.routes)
  unfolding assign
  routes-assign host service port p = ground arith

  kept_route :
      (p : Progress) (s : String) (r : ServiceRoute)
      → RoutesAgree p
      → (o : Option ℕ) → get s p.routes ≡ some r
      → or_else (get s p.ports) o ≡ some r.port
  kept_route p s r h o e = rw (h s r e)

  added_route :
      (host service : String) (port : ℕ) (p : Progress) (o : Option ServiceRoute) (r : ServiceRoute)
      → RoutesAgree p
      → get service p.routes ≡ o
      → add_host o (port_of (get service p.ports) port) host ≡ r
      → or_else (get service p.ports) (some port) ≡ some r.port
  added_route host service port p none r h e a = elim (Option-cases (get service p.ports)) [
    | inl q ↦ ground arith
    | inr (n, q) ↦ ground arith
  ]
  added_route host service port p (some route) r h e a = rw (h service route e) (ground arith)

  set_route :
      (host service s : String) (port : ℕ) (p : Progress) (r : ServiceRoute)
      → RoutesAgree p
      → (if str_eq service s
          then some (add_host (get service p.routes) (port_of (get service p.ports) port) host)
          else get s p.routes)
        ≡ some r
      → or_else (get s p.ports) (port_if service port s) ≡ some r.port
  set_route host service s port p r h e = elim (Bool-cases (str_eq service s)) [
    | inl same ↦
        rw (same, ← (eq_iff service s).0 same)
          (added_route host service port p (get service p.routes) r h refl
            (some-injective _ _ (rw same at e)))
    | inr other ↦ rw other (kept_route p s r h none (rw other at e))
  ]

  assign-RoutesAgree :
      (host service : String) (port : ℕ) (p : Progress)
      → RoutesAgree p
      → RoutesAgree (assign dashboard host service port p)
  assign-RoutesAgree host service port p h s r e =
      get-assign_ports host service s port p ∙ elim (routes-assign host service port p) [
        | inl same ↦ kept_route p s r h (port_if service port s) (rw same at e)
        | inr written ↦ set_route (to_lower host) service s port p r h (rw (written, get-set) at e)
      ]

  rows-RoutesAgree :
      (target : Option Target) (ds : List RoutingDomain) (p : Progress)
      → RoutesAgree p
      → RoutesAgree (assign_rows dashboard target ds p)
  unfolding assign_rows
  rows-RoutesAgree target [] p h = h
  rows-RoutesAgree target (d ∷ ds) p h =
      rows-RoutesAgree target ds (assign_row dashboard target d d.service_name d.container_port p)
        (row-RoutesAgree target d d.service_name d.container_port p h)
    where
      row-RoutesAgree :
          (target : Option Target) (d : RoutingDomain) (service : Option String) (port : Option ℕ)
          (p : Progress)
          → RoutesAgree p
          → RoutesAgree (assign_row dashboard target d service port p)
      row-RoutesAgree none d none port p h = h
      row-RoutesAgree (some t) d none port p h = assign-RoutesAgree d.host t.service t.port p h
      row-RoutesAgree none d (some service) none p h = h
      row-RoutesAgree (some t) d (some service) none p h = h
      row-RoutesAgree none d (some service) (some port) p h =
          assign-RoutesAgree d.host service port p h
      row-RoutesAgree (some t) d (some service) (some port) p h =
          assign-RoutesAgree d.host service port p h

none_route : (s : String) (r : ServiceRoute) → get {V = ServiceRoute} s [] ≢ some r
unfolding get
none_route s r e = cc

initial_IsFixed :
    (dashboard : Option String) (target : Option Target)
    → IsFixed dashboard target (initial_ports target)
unfolding get
initial_IsFixed dashboard none = tt
initial_IsFixed dashboard (some t) = ground (arith, eq_iff t.service t.service)

initial_get :
    (target : Option Target) (s : String) → get s (initial_ports target) ≡ public_port_for target s
unfolding get
initial_get none s = refl
initial_get (some t) s = ground (arith, eq_iff t.service s, eq_iff s t.service)

auto_ports :
    (dashboard : Option String) (target : Option Target) (auto_host : Option String) (s : String)
    (p : Progress)
    → IsFixed dashboard target p.ports
    → get s (assign_auto dashboard target auto_host p).ports ≡ get s p.ports
auto_ports dashboard none auto_host s p h = refl
auto_ports dashboard (some t) none s p h = refl
auto_ports dashboard (some t) (some host) s p h =
    get-assign_ports dashboard host t.service s t.port p ∙ ground (arith, eq_iff t.service s)

auto-RoutesAgree :
    (dashboard : Option String) (target : Option Target) (auto_host : Option String) (p : Progress)
    → RoutesAgree dashboard p
    → RoutesAgree dashboard (assign_auto dashboard target auto_host p)
auto-RoutesAgree dashboard none auto_host p h = h
auto-RoutesAgree dashboard (some t) none p h = h
auto-RoutesAgree dashboard (some t) (some host) p h =
    assign-RoutesAgree dashboard host t.service t.port p h

-- The port that a stack's route dials is the one that the domain forms check a request against:
-- whatever the rows, the auto host and the dashboard's host, a service that routingPlan routes
-- is routed on the port that servicePortFor gives for it, no row excluded.
pub routing_plan-service_port :
    (domains : List RoutingDomain) (public_service : Option String) (public_port : Option ℕ)
    (auto_host dashboard_host : Option String) (s : String) (r : ServiceRoute)
    → get s (routing_plan domains public_service public_port auto_host dashboard_host).routes
      ≡ some r
    → service_port_for domains public_service public_port s none ≡ some r.port
unfolding routing_plan service_port_for
routing_plan-service_port domains public_service public_port auto_host dashboard_host s r e =
    let dashboard = map_option to_lower dashboard_host in
    let target = public_target public_service public_port in
    let rows = assign_rows dashboard target domains (initial target) in
    let fixed = initial_IsFixed dashboard target in
    let rows_get : get s rows.ports ≡ service_port_for domains public_service public_port s none =
      rows_ports dashboard target s domains (initial target) fixed
      ∙ ap (λ o. or_else o (first_port domains s none)) (initial_get target s) in
    let rows_fixed = rows_IsFixed dashboard target domains (initial target) fixed in
    let agree = auto-RoutesAgree dashboard target auto_host rows (
      rows-RoutesAgree dashboard target domains (initial target)
        (λ x y q. absurd (none_route x y q))) in
    sym rows_get ∙ sym (auto_ports dashboard target auto_host s rows rows_fixed) ∙ agree s r e
