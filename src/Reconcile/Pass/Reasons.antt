-- ===== src/Reconcile/Pass/Reasons.antt =====
-- Every action of a pass of the reconciler (src/reconciler.ts) has its reason.
use musdash.Prelude.{
  ℕ, ◌≡◌, refl, sym, ap, ◌∙◌, String, Bool, true, false, ◌&&◌, not, Option, none, some, List, [],
  ◌∷◌, any, inl, inr, Bool-cases, All, All-append, eq_iff, is_some,
}
use mathlib.Core.Bool.{false≢true}
use musdash.Prelude.Dict.{Dict, get}
use musdash.Deployments.{Deployment}
use musdash.Stack.Gate.{stack_services_down}
use musdash.Deploy.HealthGate.{Health}
use musdash.Reconcile.Plan.{RedeployPlan, wait, redeploy, redeploy_plan}
use musdash.Volumes.Select.{label_managed, label_resource}
use musdash.Reconcile.Pass.{
  ManagedContainer, Resource, Source, image, git, compose, ComposeSource, Action, deploys_image,
  deploys_stack, stops_container, removes_container, truthy, is_running, by_resource,
  resource_image, deploy_image, deploy_if_image, heal_resource, heal_one, heal_resources,
  deploy_stack, set_container, heal_stack, heal_one_stack, reconcile_stacks, is_orphan,
  remove_orphans, is_text, without_row, label_role, is_empty, views, container_of, primary_service,
  seen, refresh_one, refresh, reconcile_once,
}
use musdash.Reconcile.Pass.Choice.{own_running, by_resource-running}

-- A container that musdash manages, that is none of its own infrastructure, and whose resource has no
-- row.
abbrev pub IsOrphanContainer : (String → Bool) → ManagedContainer → Type 0
IsOrphanContainer has_row c =
    (get label_managed c.labels ≡ some "true")
    × (truthy (get label_role c.labels) ≡ none)
    × (rid : String) × (truthy (get label_resource c.labels) ≡ some rid)
    × (has_row rid ≡ false)

text_of : (o : Option String) (v : String) → is_text o v ≡ true → o ≡ some v
text_of none v h = absurd (false≢true h)
text_of (some w) v h = ap some ((eq_iff w v).0 h)

untrue : (b : Bool) → not b ≡ true → b ≡ false
untrue true h = absurd (false≢true h)
untrue false h = refl

three_parts :
    (a : Bool) (o : Option String) (b : Bool)
    → (a && (not (is_some o) && b)) ≡ true
    → (a ≡ true) × (o ≡ none) × (b ≡ true)
three_parts false o b h = absurd (false≢true h)
three_parts true none b h = (refl, refl, h)
three_parts true (some v) b h = absurd (false≢true h)

missing_row :
    (has_row : String → Bool) (o : Option String)
    → without_row has_row o ≡ true
    → (rid : String) × (o ≡ some rid) × (has_row rid ≡ false)
missing_row has_row none h = absurd (false≢true h)
missing_row has_row (some rid) h = (rid, refl, untrue (has_row rid) h)

is_orphan-IsOrphanContainer :
    (has_row : String → Bool) (c : ManagedContainer)
    → is_orphan has_row c ≡ true
    → IsOrphanContainer has_row c
unfolding is_orphan
is_orphan-IsOrphanContainer has_row c h =
    let parts =
      three_parts (is_text (get label_managed c.labels) "true") (truthy (get label_role c.labels))
        (without_row has_row (truthy (get label_resource c.labels))) h in
    let row = missing_row has_row (truthy (get label_resource c.labels)) parts.2 in
    (text_of (get label_managed c.labels) "true" parts.0, parts.1, row.0, row.1, row.2)

module _ (deployments : String → List Deployment) (clock : String → ℕ) (listed_at : ℕ)
    (containers : List ManagedContainer) (has_row : String → Bool) where
  -- The redeploy of an image is due when the backoff allows it and no container of the resource runs;
  -- that of a stack when the backoff allows it; a container is stopped and removed when it is an
  -- orphan.
  abbrev pub Justified : Action → Type 0
  Justified (deploys_image id img streak) =
      (redeploy_plan (deployments id) (clock id) listed_at ≡ redeploy streak)
      × (any (own_running id) containers ≡ false)
  Justified (deploys_stack id file streak) =
      redeploy_plan (deployments id) (clock id) listed_at ≡ redeploy streak
  Justified (stops_container c) = IsOrphanContainer has_row c
  Justified (removes_container c) = IsOrphanContainer has_row c
  Justified _ = Unit

  none_running :
      (id : String)
      → is_running (get id (by_resource containers [])) ≡ false
      → any (own_running id) containers ≡ false
  none_running id h = elim (Bool-cases (any (own_running id) containers)) [
    | inr e ↦ e
    | inl e ↦ absurd (false≢true (sym h ∙ by_resource-running id containers [] e))
  ]

  deploy_image-Justified :
      (r : Resource) (img : String) (plan : RedeployPlan)
      → redeploy_plan (deployments r.id) (clock r.id) listed_at ≡ plan
      → any (own_running r.id) containers ≡ false
      → All Justified (deploy_image r img plan)
  deploy_image-Justified r img wait e h = tt
  deploy_image-Justified r img (redeploy streak) e h = ((e, h), tt)

  deploy_if_image-Justified :
      (r : Resource) (o : Option String)
      → any (own_running r.id) containers ≡ false
      → All Justified
          (deploy_if_image r (redeploy_plan (deployments r.id) (clock r.id) listed_at) o)
  deploy_if_image-Justified r none h = tt
  deploy_if_image-Justified r (some img) h = deploy_image-Justified r img _ refl h

  heal_resource-Justified :
      (r : Resource)
      → All Justified (
          heal_resource r
            (redeploy_plan (deployments r.id) (clock r.id) listed_at)
            (get r.id (by_resource containers [])))
  unfolding heal_resource
  heal_resource-Justified r =
      elim (Bool-cases (is_running (get r.id (by_resource containers [])))) [
        | inl e ↦ rw e tt
        | inr e ↦ rw e (deploy_if_image-Justified r (resource_image r.source) (none_running r.id e))
      ]

  heal_one-Justified :
      (r : Resource) (source : Source)
      → All Justified (heal_one deployments clock listed_at containers r source)
  unfolding heal_one
  heal_one-Justified r (compose source) = tt
  heal_one-Justified r (image i) = heal_resource-Justified r
  heal_one-Justified r (git i) = heal_resource-Justified r

  heal_resources-Justified :
      (rs : List Resource)
      → All Justified (heal_resources deployments clock listed_at containers rs)
  unfolding heal_resources
  heal_resources-Justified [] = tt
  heal_resources-Justified (r ∷ rs) =
      All-append Justified _ _ (heal_one-Justified r r.source) (heal_resources-Justified rs)

  set_container-Justified : (r : Resource) (o : Option String) → All Justified (set_container r o)
  set_container-Justified r none = tt
  set_container-Justified r (some c) = elim (Bool-cases (is_text r.container_id c)) [
    | inl e ↦ rw e tt
    | inr e ↦ rw e (tt, tt)
  ]

  deploy_stack-Justified :
      (r : Resource) (source : ComposeSource) (plan : RedeployPlan)
      → redeploy_plan (deployments r.id) (clock r.id) listed_at ≡ plan
      → All Justified (deploy_stack r source plan)
  deploy_stack-Justified r source wait e = tt
  deploy_stack-Justified r source (redeploy streak) e = (e, tt)

  heal_stack-Justified :
      (r : Resource) (source : ComposeSource) (stack : Dict ManagedContainer)
      → All Justified
          (heal_stack r source (redeploy_plan (deployments r.id) (clock r.id) listed_at) stack)
  unfolding heal_stack
  heal_stack-Justified r source stack =
      elim (Bool-cases (is_empty (stack_services_down source.services (views stack)))) [
        | inr e ↦ rw e (deploy_stack-Justified r source _ refl)
        | inl e ↦ rw e (
            All-append Justified _ _
              (set_container-Justified r (container_of (primary_service source) stack))
              (tt, (tt, tt)))
      ]

  heal_one_stack-Justified :
      (r : Resource) (source : Source)
      → All Justified (heal_one_stack deployments clock listed_at containers r source)
  unfolding heal_one_stack
  heal_one_stack-Justified r (compose (some source)) = heal_stack-Justified r source _
  heal_one_stack-Justified r (compose none) = tt
  heal_one_stack-Justified r (image i) = tt
  heal_one_stack-Justified r (git i) = tt

  reconcile_stacks-Justified :
      (rs : List Resource)
      → All Justified (reconcile_stacks deployments clock listed_at containers rs)
  unfolding reconcile_stacks
  reconcile_stacks-Justified [] = tt
  reconcile_stacks-Justified (r ∷ rs) =
      All-append Justified _ _ (heal_one_stack-Justified r r.source) (reconcile_stacks-Justified rs)

  seen-Justified :
      (r : Resource) (c : ManagedContainer) (o : Option Health) → All Justified (seen r c o)
  seen-Justified r c none = tt
  seen-Justified r c (some reported) =
      All-append Justified _ _ (set_container-Justified r (some c.id)) (tt, (tt, tt))

  refresh_one-Justified :
      (inspect : String → Option Health) (r : Resource) (o : Option ManagedContainer)
      → All Justified (refresh_one inspect r o)
  unfolding refresh_one
  refresh_one-Justified inspect r none = tt
  refresh_one-Justified inspect r (some c) = elim (Bool-cases c.running) [
    | inl e ↦ rw e (seen-Justified r c (inspect c.id))
    | inr e ↦ rw e tt
  ]

  refresh-Justified :
      (inspect : String → Option Health) (found : Dict ManagedContainer) (rs : List Resource)
      → All Justified (refresh inspect found rs)
  unfolding refresh
  refresh-Justified inspect found [] = tt
  refresh-Justified inspect found (r ∷ rs) =
      All-append Justified _ _ (refresh_one-Justified inspect r (get r.id found))
        (refresh-Justified inspect found rs)

  remove_orphans-Justified :
      (cs : List ManagedContainer) → All Justified (remove_orphans has_row cs)
  unfolding remove_orphans
  remove_orphans-Justified [] = tt
  remove_orphans-Justified (c ∷ cs) = elim (Bool-cases (is_orphan has_row c)) [
    | inl e ↦
        let orphan = is_orphan-IsOrphanContainer has_row c e in
        rw e (orphan, (orphan, remove_orphans-Justified cs))
    | inr e ↦ rw e (remove_orphans-Justified cs)
  ]

-- Whatever Docker lists and inspects and whatever the tables hold: a pass redeploys an image only for a
-- resource of which no container runs and when the backoff allows it, a stack only when the backoff
-- allows it, and it stops and removes only containers that are managed, are not musdash's own
-- infrastructure, and name a resource that has no row.
pub reconcile_once-Justified :
    (deployments : String → List Deployment) (clock : String → ℕ) (listed_at : ℕ)
    (has_row : String → Bool) (inspect : String → Option Health) (running : List Resource)
    (containers : List ManagedContainer)
    → All
        (Justified deployments clock listed_at containers has_row)
        (reconcile_once deployments clock listed_at has_row inspect running containers)
unfolding reconcile_once
reconcile_once-Justified deployments clock listed_at has_row inspect running containers =
    let P = Justified deployments clock listed_at containers has_row in
    All-append P _ _
      (heal_resources-Justified deployments clock listed_at containers has_row running)
      (All-append P _ _
        (reconcile_stacks-Justified deployments clock listed_at containers has_row running)
        (All-append P _ _
          (remove_orphans-Justified deployments clock listed_at containers has_row containers)
          (refresh-Justified deployments clock listed_at containers has_row inspect
            (by_resource containers []) running)))
