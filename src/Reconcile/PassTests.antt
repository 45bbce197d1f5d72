-- ===== src/Reconcile/PassTests.antt =====
-- Tests of a pass of the reconciler (src/reconciler.ts): a resource whose container exited, the proxy,
-- and a container whose resource is gone.
use musdash.Prelude.{
  ℕ, ◌≡◌, refl, String, Bool, true, false, Option, none, some, List, [], ◌∷◌, All, str_eq,
}
use musdash.Prelude.Dict.{get, set}
use musdash.Deployments.{Deployment}
use musdash.Deploy.HealthGate.{Health}
use musdash.Reconcile.Plan.{redeploy_plan, streak_from}
use musdash.Reconcile.Pass.{
  ManagedContainer, Resource, image, deploys_image, stops_container, removes_container,
  reconcile_once, heal_resources, heal_one, heal_resource, resource_image, by_resource,
  map_container, put_better, is_better, is_stack_container, truthy, reconcile_stacks,
  heal_one_stack, remove_orphans, is_orphan, refresh, refresh_one,
}
use musdash.Reconcile.Pass.Reasons.{Justified, reconcile_once-Justified}

abbrev container : String → Bool → String → ManagedContainer
container id running resource = record {
  id = id;
  name = id;
  running = running;
  state = "exited";
  exit_code = some 1;
  labels = ("musdash.managed", "true") ∷ ("musdash.resource_id", resource) ∷ [];
}

abbrev proxy : ManagedContainer
proxy = record {
  id = "caddy";
  name = "caddy";
  running = true;
  state = "running";
  exit_code = none;
  labels = ("musdash.managed", "true") ∷ ("musdash.role", "proxy") ∷ [];
}

abbrev listed : List ManagedContainer
listed = container "c1" false "r1" ∷ proxy ∷ container "c2" true "gone" ∷ []

abbrev web : Resource
web = record { id = "r1"; source = image (some "nginx"); container_id = none; current_file = none }

abbrev none_deployed : String → List Deployment
none_deployed id = []

abbrev at_noon : String → ℕ
at_noon id = 43200000

abbrev has_first : String → Bool
has_first id = str_eq id "r1"

abbrev no_health : String → Option Health
no_health id = none

-- The image is deployed again and the container of the missing resource is removed.
one_pass :
    reconcile_once none_deployed at_noon 43200000 has_first no_health (web ∷ []) listed
    ≡ deploys_image "r1" "nginx" 0
      ∷ stops_container (container "c2" true "gone")
      ∷ removes_container (container "c2" true "gone")
      ∷ []
unfolding reconcile_once heal_resources heal_one heal_resource resource_image by_resource
    map_container put_better is_better is_stack_container truthy reconcile_stacks heal_one_stack
    remove_orphans is_orphan refresh refresh_one get set redeploy_plan streak_from
one_pass = refl

reconcile_once-Justified_example :
    All
      (Justified none_deployed at_noon 43200000 listed has_first)
      (reconcile_once none_deployed at_noon 43200000 has_first no_health (web ∷ []) listed)
reconcile_once-Justified_example =
    reconcile_once-Justified none_deployed at_noon 43200000 has_first no_health (web ∷ []) listed
