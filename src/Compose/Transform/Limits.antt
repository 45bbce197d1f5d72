-- ===== src/Compose/Transform/Limits.antt =====
-- The memory limit and the labels of a transformed service (src/compose/transform.ts).
use musdash.Prelude.{
  ◌≡◌, ◌⊎◌, inl, inr, refl, String, true, false, Option, none, some, [], ◌++◌, arith, Bool-cases,
}
use musdash.Prelude.Dict.{Dict, get, get-set}
use musdash.Compose.Json.{ℤ, Value, present, integer_in, is_positive}
use musdash.Compose.Memory.{deploy_memory, effective_memory, check_memory, check_limit}
use musdash.Compose.Validate.Accepted.{append-nil_inv}
use musdash.Compose.Transform.{TransformContext, with_labels, has_unread_limit}

-- Labels, a restart policy, the log driver and the networks do not touch the limits.
abbrev pub KeepsLimits : Dict Value → Dict Value → Type 0
KeepsLimits svc svc' =
    (get "mem_limit" svc' ≡ get "mem_limit" svc) × (get "deploy" svc' ≡ get "deploy" svc)

pub effective_memory-KeepsLimits :
    (svc svc' : Dict Value) → KeepsLimits svc svc' → effective_memory svc' ≡ effective_memory svc
unfolding effective_memory deploy_memory
effective_memory-KeepsLimits svc svc' (m, d) = rw (m, d)

pub has_unread_limit-KeepsLimits :
    (svc svc' : Dict Value) → KeepsLimits svc svc' → has_unread_limit svc' ≡ has_unread_limit svc
unfolding deploy_memory
has_unread_limit-KeepsLimits svc svc' (m, d) = rw (m, d)

pub labels_keep :
    (ctx : TransformContext) (label name : String) (svc : Dict Value)
    → KeepsLimits svc (with_labels ctx label name svc)
labels_keep ctx label name svc = (rw get-set, rw get-set)

-- A limit that validation accepts is readable and positive.
abbrev pub GoodLimit : Option ℤ → Type 0
GoodLimit o = (z : ℤ) × (o ≡ some z) × (is_positive z ≡ true)

check_limit-GoodLimit :
    (o : Option Value) (z : Option ℤ) (at : String)
    → integer_in o ≡ z
    → present o ≡ true
    → check_limit o at ≡ []
    → GoodLimit z
check_limit-GoodLimit o none at e p h = absurd (ground arith)
check_limit-GoodLimit o (some z) at e p h = elim (Bool-cases (is_positive z)) [
  | inl good ↦ (z, refl, good)
  | inr bad ↦ absurd (ground arith)
]

-- What effectiveMemory reads in a service whose limits validation accepts: a positive limit, or
-- none where none is set.
pub check_memory-limits :
    (svc : Dict Value)
    → check_memory svc ≡ []
    → GoodLimit (effective_memory svc)
      ⊎ (effective_memory svc ≡ none) × (has_unread_limit svc ≡ false)
unfolding check_memory effective_memory
check_memory-limits svc h =
    let both =
      check_limit (get "mem_limit" svc) "mem_limit"
      ++ check_limit (deploy_memory svc) "deploy.resources.limits.memory" in
    let (limits, _) = append-nil_inv both _ h in
    let (mem, dep) = append-nil_inv (check_limit (get "mem_limit" svc) "mem_limit") _ limits in
    elim (Bool-cases (present (get "mem_limit" svc))) [
      | inl p ↦ rw p (inl (check_limit-GoodLimit (get "mem_limit" svc) _ "mem_limit" refl p mem))
      | inr p ↦ elim (Bool-cases (present (deploy_memory svc))) [
        | inl q ↦
            rw (p, q)
              (inl (
                check_limit-GoodLimit (deploy_memory svc) _ "deploy.resources.limits.memory" refl q
                  dep))
        | inr q ↦ rw (p, q) (inr (refl, refl))
      ]
    ]
