-- ===== src/Resources.antt =====
-- What a resource's status reads at first paint (src/resource-state.ts), and the dot of an environment
-- in the sidebar (navTree in src/db/queries.ts).
pub mod Dots
mod Tests
use musdash.Prelude.{
  ℕ, ◌+◌, String, Bool, true, false, Option, none, some, List, [], ◌∷◌, if◌then◌else◌, leb, is_some,
  str_eq, ◌&&◌, not,
}
use musdash.Deployments.{DeploymentStatus, queued, running, failed, succeeded, cancelled}

pub data ResourceState : Type 0 where
  queued_state deploying healthy unhealthy stopped failed_state : ResourceState

pub data DesiredState : Type 0 where
  runs stops : DesiredState

pub record Resource : Type 0 where
  pub desired_state : DesiredState
  pub container_id : Option String
  pub current_deployment_id : Option String

-- A container id that is set and not the empty text.
abbrev has_container : Option String → Bool
has_container none = false
has_container (some id) = not (str_eq id "")

abbrev at_rest : Resource → Option DeploymentStatus → ResourceState
at_rest r (some failed) = if is_some r.current_deployment_id then stopped else failed_state
at_rest r _ = stopped

abbrev by_desired : DesiredState → Resource → Option DeploymentStatus → ResourceState
by_desired runs r latest = if has_container r.container_id then healthy else queued_state
by_desired stops r latest = at_rest r latest

unfoldable pub resource_state : Resource → Option DeploymentStatus → ResourceState
resource_state r (some running) = deploying
resource_state r (some queued) = queued_state
resource_state r latest = by_desired r.desired_state r latest

-- Whether two states are the same.
abbrev pub same_state : ResourceState → ResourceState → Bool
same_state queued_state queued_state = true
same_state deploying deploying = true
same_state healthy healthy = true
same_state unhealthy unhealthy = true
same_state stopped stopped = true
same_state failed_state failed_state = true
same_state _ _ = false

abbrev pub state_order : List ResourceState
state_order = failed_state ∷ unhealthy ∷ deploying ∷ queued_state ∷ healthy ∷ stopped ∷ []

-- Array.indexOf, of a state that the list has.
abbrev pub index_of : ResourceState → List ResourceState → ℕ
index_of s [] = 0
index_of s (t ∷ ts) = let rest = index_of s ts in if same_state t s then 0 else 1 + rest

unfoldable pub worst_state : Option ResourceState → ResourceState → ResourceState
worst_state none b = b
worst_state (some a) b = if leb (index_of a state_order) (index_of b state_order) then a else b

-- The rows of one environment, in navTree's loop.
unfoldable pub env_state :
    List (Resource × Option DeploymentStatus) → Option ResourceState → Option ResourceState
env_state [] state = state
env_state ((r, latest) ∷ rows) state =
    env_state rows (some (worst_state state (resource_state r latest)))
