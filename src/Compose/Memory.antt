-- ===== src/Compose/Memory.antt =====
-- The memory limit of a service: what validateModel accepts (src/compose/validate.ts, checkMemory),
-- and the limit that Docker will enforce (src/compose/transform.ts, effectiveMemory).
use musdash.Prelude.{String, Bool, false, not, Option, none, some, [], ◌++◌, if◌then◌else◌}
use musdash.Prelude.Dict.{Dict, get}
use musdash.Compose.Json.{ℤ, Value, record_or_empty, present, integer_in, is_positive, integer_eq}
use musdash.Compose.Refusal.{memory_unlimited, memswap}
use musdash.Compose.Keys.{Added, one, when}

-- deploy.resources of a service, and its limits.
abbrev pub resources_of : Dict Value → Dict Value
resources_of svc = record_or_empty (get "resources" (record_or_empty (get "deploy" svc)))

unfoldable pub deploy_memory : Dict Value → Option Value
deploy_memory svc = get "memory" (record_or_empty (get "limits" (resources_of svc)))

-- One of the two limits: what is refused, and the bytes it gives.
abbrev pub positive : Option ℤ → Option ℤ
positive none = none
positive (some z) = if is_positive z then some z else none

abbrev pub limit_of : Option Value → Option ℤ
limit_of v = if present v then positive (integer_in v) else none

abbrev unlimited : Option ℤ → String → Added
unlimited none field = one memory_unlimited field
unlimited (some z) field = []

abbrev pub check_limit : Option Value → String → Added
check_limit v field = if present v then unlimited (positive (integer_in v)) field else []

-- `a ?? b`
abbrev pub first_of {ℓ} : {A : Type ℓ} → Option A → Option A → Option A
first_of none o = o
first_of (some z) o = some z

-- `effective === null || swap !== effective`, negated.
abbrev swap_is : Option ℤ → Option ℤ → Bool
swap_is (some swap) (some effective) = integer_eq swap effective
swap_is _ _ = false

abbrev pub check_swap : Option Value → Option ℤ → Added
check_swap v effective =
    if present v then when (not (swap_is (integer_in v) effective)) memswap "memswap_limit" else []

unfoldable pub check_memory : Dict Value → Added
check_memory svc =
    check_limit (get "mem_limit" svc) "mem_limit"
    ++ check_limit (deploy_memory svc) "deploy.resources.limits.memory"
    ++ check_swap (get "memswap_limit" svc)
        (first_of (limit_of (get "mem_limit" svc)) (limit_of (deploy_memory svc)))

-- The limit that Docker will enforce.
unfoldable pub effective_memory : Dict Value → Option ℤ
effective_memory svc =
    if present (get "mem_limit" svc)
    then integer_in (get "mem_limit" svc)
    else if present (deploy_memory svc)
    then integer_in (deploy_memory svc)
    else none
