-- ===== src/Stack/Routing.antt =====
-- Which host goes to which service of a stack (src/jobs/compose-plan.ts, routingPlan and the
-- functions that read its result).
pub mod Ports
pub mod Effects
pub mod Once
use musdash.Prelude.{
  ℕ, String, Bool, true, false, ◌&&◌, ◌||◌, not, Option, none, some, List, [], ◌∷◌, ◌++◌,
  if◌then◌else◌, str_eq, ◌==◌, any, map_option,
}
use musdash.Prelude.Case.{to_lower}
use musdash.Prelude.Dict.{Dict, get, set, includes}

pub record RoutingDomain : Type 0 where
  pub id : String
  pub host : String
  pub service_name : Option String
  pub container_port : Option ℕ

pub record ServiceRoute : Type 0 where
  pub port : ℕ
  pub hosts : List String

pub record Conflict : Type 0 where
  pub host : String
  pub service : String
  pub port : ℕ

pub record RoutingPlan : Type 0 where
  pub routes : Dict ServiceRoute
  pub conflicts : List Conflict

-- The public service with its port.
pub record Target : Type 0 where
  pub service : String
  pub port : ℕ

-- The variables that `assign` closes over.
pub record Progress : Type 0 where
  pub ports : Dict ℕ
  pub routes : Dict ServiceRoute
  pub conflicts : List Conflict
  pub claimed : List String

abbrev pub public_target : Option String → Option ℕ → Option Target
public_target (some service) (some port) = some (record { service = service; port = port })
public_target _ _ = none

abbrev pub is_dashboard : Option String → String → Bool
is_dashboard none host = false
is_dashboard (some dashboard) host = str_eq host dashboard

-- The port of the service, fixed here if it is not yet.
abbrev pub port_of : Option ℕ → ℕ → ℕ
port_of none port = port
port_of (some fixed) port = fixed

abbrev pub fix_port : Option ℕ → String → ℕ → Dict ℕ → Dict ℕ
fix_port none service port ports = set service port ports
fix_port (some fixed) service port ports = ports

abbrev pub add_host : Option ServiceRoute → ℕ → String → ServiceRoute
add_host none port host = record { port = port; hosts = host ∷ [] }
add_host (some route) port host = record route { hosts = route.hosts ++ host ∷ [] }

-- A host that nothing has claimed yet.
abbrev pub claim_host : String → String → ℕ → ℕ → Progress → Progress
claim_host host service port service_port p =
    if port == service_port
    then record p {
      claimed = p.claimed ++ host ∷ [];
      routes = set service (add_host (get service p.routes) service_port host) p.routes;
    }
    else record p {
      claimed = p.claimed ++ host ∷ [];
      conflicts = p.conflicts ++ record { host = host; service = service; port = port } ∷ [];
    }

unfoldable pub assign : Option String → String → String → ℕ → Progress → Progress
assign dashboard raw_host service port p =
    let host = to_lower raw_host in
    let fixed = get service p.ports in
    let p' = record p { ports = fix_port fixed service port p.ports } in
    if is_dashboard dashboard host || includes host p.claimed
    then p'
    else claim_host host service port (port_of fixed port) p'

-- A row with no service belongs to the public one; a row with a service needs its own port.
abbrev pub assign_row :
    Option String → Option Target → RoutingDomain → Option String → Option ℕ → Progress → Progress
assign_row dashboard none d none port p = p
assign_row dashboard (some t) d none port p = assign dashboard d.host t.service t.port p
assign_row dashboard target d (some service) none p = p
assign_row dashboard target d (some service) (some port) p = assign dashboard d.host service port p

unfoldable pub assign_rows :
    Option String → Option Target → List RoutingDomain → Progress → Progress
assign_rows dashboard target [] p = p
assign_rows dashboard target (d ∷ ds) p =
    assign_rows dashboard target ds
      (assign_row dashboard target d d.service_name d.container_port p)

abbrev pub assign_auto : Option String → Option Target → Option String → Progress → Progress
assign_auto dashboard (some t) (some host) p = assign dashboard host t.service t.port p
assign_auto dashboard _ _ p = p

abbrev pub initial_ports : Option Target → Dict ℕ
initial_ports none = []
initial_ports (some t) = (t.service, t.port) ∷ []

abbrev pub initial : Option Target → Progress
initial target = record { ports = initial_ports target; routes = []; conflicts = []; claimed = [] }

unfoldable pub route_all :
    List RoutingDomain → Option Target → Option String → Option String → Progress
route_all domains target auto_host dashboard =
    assign_auto dashboard target auto_host (assign_rows dashboard target domains (initial target))

unfoldable pub routing_plan :
    List RoutingDomain → Option String → Option ℕ → Option String → Option String → RoutingPlan
unfolding route_all
routing_plan domains public_service public_port auto_host dashboard_host =
    let p =
      route_all domains (public_target public_service public_port) auto_host
        (map_option to_lower dashboard_host) in
    record { routes = p.routes; conflicts = p.conflicts }

abbrev pub is_excluded : Option String → String → Bool
is_excluded none id = false
is_excluded (some x) id = str_eq id x

abbrev pub row_port : String → Option String → Option ℕ → Option ℕ
row_port service (some s) (some port) = if str_eq s service then some port else none
row_port service _ _ = none

abbrev pub or_else : Option ℕ → Option ℕ → Option ℕ
or_else none o = o
or_else (some n) o = some n

-- The loop of servicePortFor.
unfoldable pub first_port : List RoutingDomain → String → Option String → Option ℕ
first_port [] service excluded = none
first_port (d ∷ ds) service excluded =
    if is_excluded excluded d.id
    then first_port ds service excluded
    else or_else (row_port service d.service_name d.container_port) (first_port ds service excluded)

abbrev pub public_port_for : Option Target → String → Option ℕ
public_port_for none service = none
public_port_for (some t) service = if str_eq service t.service then some t.port else none

unfoldable pub service_port_for :
    List RoutingDomain → Option String → Option ℕ → String → Option String → Option ℕ
service_port_for domains public_service public_port service excluded =
    or_else (public_port_for (public_target public_service public_port) service)
      (first_port domains service excluded)

abbrev needs_deploy : Option ServiceRoute → List String → String → ℕ → Bool
needs_deploy none routed_services service port = not (includes service routed_services)
needs_deploy (some prev) routed_services service port = not (prev.port == port)

unfoldable pub routing_change_needs_deploy : RoutingPlan → List String → String → ℕ → Bool
routing_change_needs_deploy before routed_services service port =
    needs_deploy (get service before.routes) routed_services service port
