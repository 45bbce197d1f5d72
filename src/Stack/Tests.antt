-- ===== src/Stack/Tests.antt =====
-- Tests of the routing, the route writes and the gate of a stack (src/jobs/compose-plan.ts).
use musdash.Prelude.{ℕ, ◌≡◌, refl, String, true, false, Option, some, none, List, [], ◌∷◌, arith}
use musdash.Prelude.Dict.{Dict, get, set}
use musdash.Prelude.Case.{to_lower}
use musdash.Stack.Routing.{
  RoutingDomain, ServiceRoute, assign, assign_rows, is_dashboard, route_all, routing_plan,
  service_port_for,
}
use musdash.Stack.Routing.Once.{routing_plan_once}
use musdash.Stack.Routing.Ports.{routing_plan-service_port}
use musdash.Stack.Gate.{
  ServiceObservation, ServiceBaseline, service_verdict, not_ok, crashed, crash_is_final,
}

abbrev row : RoutingDomain
row = record {
  id = "d1";
  host = "api.example.com";
  service_name = some "api";
  container_port = some 8080;
}

abbrev api_route : ServiceRoute
api_route = record { port = 8080; hosts = "api.example.com" ∷ [] }

routing_plan-service_port_example :
    service_port_for (row ∷ []) (some "web") (some 3000) "api" none ≡ some 8080
unfolding routing_plan route_all assign_rows assign get set to_lower
routing_plan-service_port_example =
    routing_plan-service_port (row ∷ []) (some "web") (some 3000) none none "api" api_route refl

-- The auto host is one that a row claims already, for another service.
routing_plan_once_example :
    (◌≡◌ {A = String} "api" "api")
    × (is_dashboard (some "panel.example.com") "api.example.com" ≡ false)
unfolding routing_plan route_all assign_rows assign get set to_lower
routing_plan_once_example =
    routing_plan_once (row ∷ []) (some "web") (some 3000) (some "api.example.com")
      (some "panel.example.com") "api" "api" "api.example.com" refl refl

-- The host x moves from the route r1 to the route r2.
abbrev current : Dict (List String)
current = ("r1", "x" ∷ []) ∷ ("r2", "y" ∷ []) ∷ []

abbrev final : Dict (List String)
final = ("r1", []) ∷ ("r2", "x" ∷ []) ∷ []

abbrev observed : ℕ → ServiceObservation
observed restarts = record {
  state = some "running";
  container_id = some "c1";
  exit_code = none;
  restart_count = restarts;
}

abbrev baseline : Option ServiceBaseline
baseline = some (record { container_id = "c1"; restart_count = 2 })

crash_is_final_example :
    (m : ℕ) × (service_verdict (observed 5) baseline none ≡ not_ok true (crashed m))
unfolding service_verdict
crash_is_final_example =
    crash_is_final (observed 3) (observed 5) baseline none "c1" "running" "running" 1 refl refl refl
      refl (omega arith) refl
