-- ===== src/Resources/Tests.antt =====
-- Runs of the dots of environments (src/resource-state.ts).
use musdash.Prelude.{◌≡◌, refl, Option, none, some, List, [], ◌∷◌}
use musdash.Deployments.{DeploymentStatus, failed, running}
use musdash.Resources.{
  Resource, runs, stops, failed_state, resource_state, state_order, worst_state, env_state,
}
use musdash.Resources.Dots.{first_in, states_of, env_state-first_in}

abbrev serving : Resource
serving = record {
  desired_state = runs;
  container_id = some "c1";
  current_deployment_id = some "d1";
}

abbrev never_deployed : Resource
never_deployed = record { desired_state = stops; container_id = none; current_deployment_id = none }

abbrev rows : List (Resource × Option DeploymentStatus)
rows = (serving, some running) ∷ (never_deployed, some failed) ∷ (serving, none) ∷ []

shown : env_state rows none ≡ some failed_state
unfolding env_state worst_state resource_state
shown = refl

env_state-first_in_example : env_state rows none ≡ first_in state_order (states_of rows)
env_state-first_in_example = env_state-first_in rows
