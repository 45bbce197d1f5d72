-- ===== src/Reconcile/Pass.antt =====
-- One pass of the reconciler (src/reconciler.ts) over what Docker listed and what the tables hold: the
-- list of what it does to containers, deployments and resources, in order. A call to Docker that fails
-- is caught, so what follows it does not depend on it. Logging, the proxy's trusted subnets and the
-- sidecars' jobs (Reconcile/Sidecars) are left out.
pub mod Choice
pub mod Reasons
use musdash.Prelude.{
  ℕ, String, Bool, true, false, ◌&&◌, ◌||◌, not, Option, none, some, List, [], ◌∷◌, ◌++◌, map,
  if◌then◌else◌, ◌==◌, is_some, map_option, str_eq,
}
use musdash.Prelude.Dict.{Dict, get, set, includes}
use musdash.Deployments.{Deployment}
use musdash.Stack.Gate.{StackContainerView, stack_services_down}
use musdash.Volumes.Select.{label_managed, label_resource}
use musdash.Deploy.HealthGate.{Health, unhealthy, starting}
use musdash.Reconcile.Plan.{RedeployPlan, wait, redeploy, redeploy_plan}

pub record ManagedContainer : Type 0 where
  pub id : String
  pub name : String
  pub running : Bool
  pub state : String
  pub exit_code : Option ℕ
  pub labels : Dict String

abbrev pub label_role : String
label_role = "musdash.role"

abbrev pub label_service : String
label_service = "musdash.service"

-- A label that is there and not the empty text, as a condition reads it.
unfoldable pub truthy : Option String → Option String
truthy none = none
truthy (some v) = if str_eq v "" then none else some v

unfoldable pub is_stack_container : ManagedContainer → Bool
is_stack_container c = is_some (get label_service c.labels)

-- Prefer a running container: whether `c` takes the place of the existing one.
unfoldable pub is_better : ManagedContainer → Option ManagedContainer → Bool
is_better c none = true
is_better c (some existing) = c.running && not existing.running

unfoldable pub put_better :
    String → ManagedContainer → Dict ManagedContainer → Dict ManagedContainer
unfolding is_better
put_better key c found = if is_better c (get key found) then set key c found else found

-- The body of the first loop, given the container's resource id.
unfoldable pub map_container :
    ManagedContainer → Option String → Dict ManagedContainer → Dict ManagedContainer
unfolding put_better is_stack_container
map_container c none found = found
map_container c (some rid) found = if is_stack_container c then found else put_better rid c found

unfoldable pub by_resource : List ManagedContainer → Dict ManagedContainer → Dict ManagedContainer
unfolding map_container truthy
by_resource [] found = found
by_resource (c ∷ cs) found =
    by_resource cs (map_container c (truthy (get label_resource c.labels)) found)

-- stackContainersOf of src/jobs/stack.ts.
abbrev is_text : Option String → String → Bool
is_text none value = false
is_text (some v) value = str_eq v value

unfoldable pub map_service :
    ManagedContainer → String → Option String → Dict ManagedContainer → Dict ManagedContainer
unfolding put_better
map_service c resource_id none found = found
map_service c resource_id (some service) found =
    if is_text (get label_resource c.labels) resource_id then put_better service c found else found

unfoldable pub stack_containers_of :
    List ManagedContainer → String → Dict ManagedContainer → Dict ManagedContainer
unfolding map_service
stack_containers_of [] resource_id found = found
stack_containers_of (c ∷ cs) resource_id found =
    stack_containers_of cs resource_id
      (map_service c resource_id (get label_service c.labels) found)

pub record ComposeSource : Type 0 where
  pub compose_file : String
  pub services : List String
  pub public_service : Option String

-- A resource by its kind, with what its source gives: the image, the image that was built, or the
-- source of a stack, if it can be read.
pub data Source : Type 0 where
  image : (source_image : Option String) → Source
  git : (built_image : Option String) → Source
  compose : (source : Option ComposeSource) → Source

pub record Resource : Type 0 where
  pub id : String
  pub source : Source
  pub container_id : Option String
  -- The Compose file of the current deployment, when there is one and it has one.
  pub current_file : Option String

-- resourceImage, with its empty text as no image.
unfoldable pub resource_image : Source → Option String
unfolding truthy
resource_image (image i) = truthy i
resource_image (git i) = truthy i
resource_image (compose s) = none

pub data UiState : Type 0 where
  ui_unhealthy : UiState
  ui_deploying : UiState
  ui_healthy : UiState

pub data Action : Type 0 where
  deploys_image : (resource image : String) (streak : ℕ) → Action
  deploys_stack : (resource file : String) (streak : ℕ) → Action
  sets_container : (resource container : String) → Action
  follows_log : (resource container : String) → Action
  follows_stack : (resource : String) (containers : List String) → Action
  publishes : (resource : String) (state : UiState) (container : Option String) → Action
  stops_container : (container : ManagedContainer) → Action
  removes_container : (container : ManagedContainer) → Action

abbrev is_running : Option ManagedContainer → Bool
is_running none = false
is_running (some c) = c.running

abbrev deploy_image : Resource → String → RedeployPlan → List Action
deploy_image r img wait = []
deploy_image r img (redeploy streak) = deploys_image r.id img streak ∷ []

abbrev deploy_if_image : Resource → RedeployPlan → Option String → List Action
deploy_if_image r plan none = []
deploy_if_image r plan (some img) = deploy_image r img plan

-- The body of the loop over the desired-running resources, given the resource's container.
unfoldable pub heal_resource : Resource → RedeployPlan → Option ManagedContainer → List Action
unfolding resource_image
heal_resource r plan found =
    if is_running found then [] else deploy_if_image r plan (resource_image r.source)

abbrev stack_file : Resource → ComposeSource → String
stack_file r source = elim r.current_file [ none ↦ source.compose_file | some file ↦ file ]

abbrev deploy_stack : Resource → ComposeSource → RedeployPlan → List Action
deploy_stack r source wait = []
deploy_stack r source (redeploy streak) = deploys_stack r.id (stack_file r source) streak ∷ []

abbrev view : ManagedContainer → StackContainerView
view c = record { running = c.running; state = c.state; exit_code = c.exit_code }

abbrev views : Dict ManagedContainer → Dict StackContainerView
views [] = []
views ((service, c) ∷ stack) = (service, view c) ∷ views stack

-- runningContainerIds
unfoldable pub running_container_ids : Dict ManagedContainer → List String
running_container_ids [] = []
running_container_ids ((service, c) ∷ stack) =
    let rest = running_container_ids stack in if c.running then c.id ∷ rest else rest

abbrev first_service : List String → Option String
first_service [] = none
first_service (s ∷ ss) = some s

unfoldable pub primary_service : ComposeSource → Option String
primary_service source = elim source.public_service [
  | none ↦ first_service source.services
  | some s ↦ some s
]

abbrev container_of : Option String → Dict ManagedContainer → Option String
container_of none stack = none
container_of (some service) stack = map_option (λ c. c.id) (get service stack)

abbrev set_container : Resource → Option String → List Action
set_container r none = []
set_container r (some c) = if is_text r.container_id c then [] else sets_container r.id c ∷ []

abbrev is_empty : List String → Bool
is_empty [] = true
is_empty (s ∷ ss) = false

-- A stack of reconcileStacks whose source can be read.
unfoldable pub heal_stack :
    Resource → ComposeSource → RedeployPlan → Dict ManagedContainer → List Action
unfolding primary_service running_container_ids
heal_stack r source plan stack =
    if is_empty (stack_services_down source.services (views stack))
    then (let primary = container_of (primary_service source) stack in
        set_container r primary
        ++ (follows_stack r.id (running_container_ids stack)
            ∷ publishes r.id ui_healthy primary
            ∷ []))
    else deploy_stack r source plan

module _ (deployments : String → List Deployment) (clock : String → ℕ) (listed_at : ℕ)
    (containers : List ManagedContainer) where
  abbrev pub plan_of : Resource → RedeployPlan
  plan_of r = redeploy_plan (deployments r.id) (clock r.id) listed_at

  -- Step 3 of the pass skips stacks, and reconcileStacks all others.
  unfoldable pub heal_one : Resource → Source → List Action
  unfolding heal_resource by_resource
  heal_one r (compose source) = []
  heal_one r _ = heal_resource r (plan_of r) (get r.id (by_resource containers []))

  unfoldable pub heal_resources : List Resource → List Action
  unfolding heal_one
  heal_resources [] = []
  heal_resources (r ∷ rs) = heal_one r r.source ++ heal_resources rs

  unfoldable pub heal_one_stack : Resource → Source → List Action
  unfolding heal_stack stack_containers_of
  heal_one_stack r (compose (some source)) =
      heal_stack r source (plan_of r) (stack_containers_of containers r.id [])
  heal_one_stack r _ = []

  unfoldable pub reconcile_stacks : List Resource → List Action
  unfolding heal_one_stack
  reconcile_stacks [] = []
  reconcile_stacks (r ∷ rs) = heal_one_stack r r.source ++ reconcile_stacks rs

-- The resource of a container that has none, if it is one that the sweep looks at.
abbrev pub without_row : (String → Bool) → Option String → Bool
without_row has_row none = false
without_row has_row (some rid) = not (has_row rid)

unfoldable pub is_orphan : (String → Bool) → ManagedContainer → Bool
unfolding truthy
is_orphan has_row c =
    is_text (get label_managed c.labels) "true"
    && (not (is_some (truthy (get label_role c.labels)))
        && without_row has_row (truthy (get label_resource c.labels)))

unfoldable pub remove_orphans : (String → Bool) → List ManagedContainer → List Action
unfolding is_orphan
remove_orphans has_row [] = []
remove_orphans has_row (c ∷ cs) =
    let rest = remove_orphans has_row cs in
    if is_orphan has_row c then stops_container c ∷ removes_container c ∷ rest else rest

abbrev ui_state : Health → UiState
ui_state unhealthy = ui_unhealthy
ui_state starting = ui_deploying
ui_state _ = ui_healthy

abbrev seen : Resource → ManagedContainer → Option Health → List Action
seen r c none = []
seen r c (some health) =
    set_container r (some c.id)
    ++ (follows_log r.id c.id ∷ publishes r.id (ui_state health) (some c.id) ∷ [])

-- Step 5 for one resource; `inspect` is the health that an inspection finds, if it answers.
unfoldable pub refresh_one :
    (String → Option Health) → Resource → Option ManagedContainer → List Action
refresh_one inspect r none = []
refresh_one inspect r (some c) = if c.running then seen r c (inspect c.id) else []

unfoldable pub refresh :
    (String → Option Health) → Dict ManagedContainer → List Resource → List Action
unfolding refresh_one
refresh inspect found [] = []
refresh inspect found (r ∷ rs) = refresh_one inspect r (get r.id found) ++ refresh inspect found rs

unfoldable pub reconcile_once :
    (String → List Deployment)
    → (String → ℕ)
    → ℕ
    → (String → Bool)
    → (String → Option Health)
    → List Resource
    → List ManagedContainer
    → List Action
unfolding heal_resources reconcile_stacks remove_orphans refresh by_resource
reconcile_once deployments clock listed_at has_row inspect running containers =
    heal_resources deployments clock listed_at containers running
    ++ (reconcile_stacks deployments clock listed_at containers running
        ++ (remove_orphans has_row containers
            ++ refresh inspect (by_resource containers []) running))
