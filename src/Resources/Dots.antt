-- ===== src/Resources/Dots.antt =====
-- The dot of an environment against the order of the states (src/resource-state.ts).
use musdash.Prelude.{◌≡◌, refl, sym, ◌∙◌, Option, none, some, List, [], ◌∷◌, if◌then◌else◌, any}
use musdash.Deployments.{DeploymentStatus}
use musdash.Resources.{
  ResourceState, queued_state, deploying, healthy, unhealthy, stopped, failed_state, Resource,
  resource_state, same_state, state_order, worst_state, env_state,
}

-- The first state of an order that some state of the list is.
abbrev pub first_in : List ResourceState → List ResourceState → Option ResourceState
first_in [] states = none
first_in (s ∷ order) states =
    let rest = first_in order states in if any (same_state s) states then some s else rest

abbrev pub states_of : List (Resource × Option DeploymentStatus) → List ResourceState
states_of [] = []
states_of ((r, latest) ∷ rows) = resource_state r latest ∷ states_of rows

worst_of_two :
    (a b : ResourceState) (states : List ResourceState)
    → first_in state_order (worst_state (some a) b ∷ states) ≡ first_in state_order (a ∷ b ∷ states)
unfolding worst_state
worst_of_two failed_state failed_state states = refl
worst_of_two failed_state _ states = refl
worst_of_two unhealthy failed_state states = refl
worst_of_two unhealthy _ states = refl
worst_of_two deploying failed_state states = refl
worst_of_two deploying _ states = refl
worst_of_two queued_state failed_state states = refl
worst_of_two queued_state _ states = refl
worst_of_two healthy failed_state states = refl
worst_of_two healthy _ states = refl
worst_of_two stopped failed_state states = refl
worst_of_two stopped _ states = refl

worst_of_one : (a : ResourceState) → first_in state_order (a ∷ []) ≡ some a
worst_of_one failed_state = refl
worst_of_one _ = refl

env_state_from :
    (rows : List (Resource × Option DeploymentStatus)) (a : ResourceState)
    → env_state rows (some a) ≡ first_in state_order (a ∷ states_of rows)
unfolding env_state
env_state_from [] a = sym (worst_of_one a)
env_state_from ((r, latest) ∷ rows) a =
    env_state_from rows (worst_state (some a) (resource_state r latest))
    ∙ worst_of_two a (resource_state r latest) (states_of rows)

-- The dot that the sidebar shows for an environment is the first state of STATE_ORDER that any of its
-- resources is in, in whatever order the rows come, and there is no dot when it has no resources.
pub env_state-first_in :
    (rows : List (Resource × Option DeploymentStatus))
    → env_state rows none ≡ first_in state_order (states_of rows)
unfolding env_state worst_state
env_state-first_in [] = refl
env_state-first_in ((r, latest) ∷ rows) = env_state_from rows (resource_state r latest)
