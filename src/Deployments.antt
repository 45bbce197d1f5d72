-- ===== src/Deployments.antt =====
-- The deployments table (src/db/schema.ts, src/db/queries.ts), as far as the queue and the
-- reconciler read and write it.
use musdash.Prelude.{
  ℕ, String, Bool, true, false, ◌≡◌, refl, Option, none, some, List, [], ◌∷◌, arith, if◌then◌else◌,
  str_eq, eq_iff, map_option,
}

pub data DeploymentStatus : Type 0 where
  queued running succeeded failed cancelled : DeploymentStatus

pub data Trigger : Type 0 where
  manual rollback reconcile webhook redeploy : Trigger

pub record Deployment : Type 0 where
  pub id : String
  pub resource_id : String
  pub status : DeploymentStatus
  pub trigger : Trigger
  pub error : Option String
  pub created_at : ℕ
  pub finished_at : Option ℕ

abbrev pub is_failed : DeploymentStatus → Bool
is_failed failed = true
is_failed _ = false

-- SELECT … WHERE id = ?
unfoldable pub get_deployment : String → List Deployment → Option Deployment
get_deployment i [] = none
get_deployment i (d ∷ ds) = if str_eq d.id i then some d else get_deployment i ds

-- UPDATE … WHERE id = ?
unfoldable pub update_deployment :
    String → (Deployment → Deployment) → List Deployment → List Deployment
update_deployment i f [] = []
update_deployment i f (d ∷ ds) = (if str_eq d.id i then f d else d) ∷ update_deployment i f ds

abbrev pub failed_with : String → ℕ → Deployment → Deployment
failed_with error now d = record d { status = failed; error = some error; finished_at = some now }

unfoldable pub mark_deployment_failed : String → String → ℕ → List Deployment → List Deployment
mark_deployment_failed i error now ds = update_deployment i (failed_with error now) ds

pub get_deployment-mark_failed :
    (i error : String) (now : ℕ) (ds : List Deployment)
    → get_deployment i (mark_deployment_failed i error now ds)
      ≡ map_option (failed_with error now) (get_deployment i ds)
unfolding mark_deployment_failed get_deployment update_deployment
get_deployment-mark_failed i error now [] = refl
get_deployment-mark_failed i error now (d ∷ ds) =
    ground (arith, get_deployment-mark_failed i error now ds)

pub get_deployment-mark_failed_other :
    (i k error : String) (now : ℕ) (ds : List Deployment)
    → str_eq i k ≡ false
    → get_deployment k (mark_deployment_failed i error now ds) ≡ get_deployment k ds
unfolding mark_deployment_failed get_deployment update_deployment
get_deployment-mark_failed_other i k error now [] h = refl
get_deployment-mark_failed_other i k error now (d ∷ ds) h = ground (
  arith,
  eq_iff d.id i,
  eq_iff d.id k,
  eq_iff i k,
  get_deployment-mark_failed_other i k error now ds h,
)
