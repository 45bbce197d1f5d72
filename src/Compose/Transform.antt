-- ===== src/Compose/Transform.antt =====
-- What musdash adds to a validated model before `compose up` (src/compose/transform.ts). An error
-- of the source is a ComposeModelError, whose message is not modelled. structuredClone copies, so
-- nothing is shared; values here are immutable.
pub mod Limits
pub mod Capped
use Prim.Native.Char.{code}
use musdash.Prelude.{
  ℕ, ◌+◌, ◌*◌, ◌/◌, ◌-◌, String, Bool, true, false, ◌&&◌, ◌||◌, Option, none, some, List, [], ◌∷◌,
  ◌++◌, if◌then◌else◌, ◌==◌, map, map_option,
}
use musdash.Prelude.Dict.{Dict, get, set, includes}
use musdash.Prelude.Show.{show}
use musdash.Compose.Json.{
  ℤ, pos, negsuc, Value, null, flag, text, array, object, elements, Fields, entries, from_entries,
  as_record, record_in, record_or_empty, present, is_positive,
}
use musdash.Compose.Memory.{deploy_memory, effective_memory}

pub record TransformContext : Type 0 where
  pub project : String
  pub resource_id : String
  pub project_id : String
  pub network : String
  pub routed_services : List String
  pub default_memory_bytes : ℕ

-- `{ ...m, ...n }`
unfoldable pub spread : Dict Value → Dict Value → Dict Value
spread m [] = m
spread m ((k, v) ∷ n) = spread (set k v m) n

-- The text before the first `=`, and the text behind it.
split_eq : String → String × String
split_eq String.[] = (String.[], String.[])
split_eq (String.◌∷◌ c s) =
    let rest = split_eq s in
    if code c == b'=' then (String.[], s) else (String.◌∷◌ c rest.0, rest.1)

fold_labels : List Value → Dict Value → Dict Value
fold_labels [] m = m
fold_labels (text l ∷ vs) m =
    let (key, value) = split_eq l in fold_labels vs (set key (text value) m)
fold_labels (_ ∷ vs) m = fold_labels vs m

unfoldable pub label_map : Option Value → Dict Value
unfolding fold_labels split_eq
label_map (some (object fs)) = entries fs
label_map (some (array vs)) = fold_labels (elements vs) []
label_map _ = []

abbrev pub logging_value : Value
logging_value = object (
    from_entries (
      ("driver", text "json-file")
      ∷ ("options", object (from_entries (("max-size", text "10m") ∷ ("max-file", text "2") ∷ [])))
      ∷ []))

abbrev pub ownership : TransformContext → String → String → Dict Value
ownership ctx label name =
    ("musdash.managed", text "true")
    ∷ ("musdash.resource_id", text ctx.resource_id)
    ∷ ("musdash.project_id", text ctx.project_id)
    ∷ (label, text name)
    ∷ []

-- The record `m` with its labels behind those of musdash.
abbrev pub with_labels : TransformContext → String → String → Dict Value → Dict Value
with_labels ctx label name m =
    set "labels"
      (object (from_entries (spread (label_map (get "labels" m)) (ownership ctx label name)))) m

-- `String(limit)` of a limit, and what a service has to fall back on.
abbrev pub limit_text : ℤ → String
limit_text (pos n) = show n
limit_text (negsuc n) = ""

abbrev pub has_unread_limit : Dict Value → Bool
has_unread_limit svc = present (get "mem_limit" svc) || present (deploy_memory svc)

-- The limit with the service that carries it, or none for an unreadable one.
abbrev pub with_limit : ℕ → Dict Value → Option ℤ → Option (ℤ × Dict Value)
with_limit default_bytes svc (some limit) = some (limit, svc)
with_limit default_bytes svc none =
    if has_unread_limit svc
    then none
    else some (pos default_bytes, set "mem_limit" (text (show default_bytes)) svc)

abbrev pub without_swap : Option (ℤ × Dict Value) → Option (Dict Value)
without_swap none = none
without_swap (some (limit, svc)) =
    if is_positive limit then some (set "memswap_limit" (text (limit_text limit)) svc) else none

abbrev pub with_restart : Dict Value → Dict Value
with_restart svc =
    if present (get "restart" svc) then svc else set "restart" (text "unless-stopped") svc

network_names : List Value → Dict Value → Dict Value
network_names [] m = m
network_names (text n ∷ vs) m = network_names vs (set n null m)
network_names (_ ∷ vs) m = network_names vs m

unfoldable pub network_map : Option Value → Dict Value
unfolding network_names
network_map (some (object fs)) = entries fs
network_map (some (array vs)) = network_names (elements vs) []
network_map _ = ("default", null) ∷ []

abbrev pub with_network : Bool → Dict Value → Dict Value
with_network routed svc =
    if routed
    then set "networks"
        (object (from_entries (set "musdash" null (network_map (get "networks" svc))))) svc
    else svc

-- transformService; none is a ComposeModelError.
unfoldable pub transform_service :
    String → Dict Value → TransformContext → Bool → Option (Dict Value)
transform_service name svc ctx routed =
    let labelled = with_labels ctx "musdash.service" name svc in
    map_option (λ s. with_network routed (set "logging" logging_value (with_restart s)))
      (without_swap (with_limit ctx.default_memory_bytes labelled (effective_memory labelled)))

abbrev pub transform_record : String → Option (Dict Value) → TransformContext → Option (Dict Value)
transform_record name none ctx = none
transform_record name (some svc) ctx =
    transform_service name svc ctx (includes name ctx.routed_services)

abbrev pub cons_service : String → Option (Dict Value) → Option (Dict Value) → Option (Dict Value)
cons_service name (some svc) (some rest) = some ((name, object (from_entries svc)) ∷ rest)
cons_service name _ _ = none

-- The loop over the services.
unfoldable pub transform_services : Dict Value → TransformContext → Option (Dict Value)
transform_services [] ctx = some []
transform_services ((name, v) ∷ rest) ctx =
    cons_service name (transform_record name (as_record v) ctx) (transform_services rest ctx)

unfoldable pub any_routed : Dict Value → TransformContext → Bool
any_routed [] ctx = false
any_routed ((name, v) ∷ rest) ctx = includes name ctx.routed_services || any_routed rest ctx

abbrev with_networks : Bool → TransformContext → Dict Value → Dict Value
with_networks routed ctx out =
    if routed
    then set "networks"
        (object (
          from_entries (
            set "musdash"
              (object (from_entries (("name", text ctx.network) ∷ ("external", flag true) ∷ [])))
              (record_or_empty (get "networks" out)))))
        out
    else out

unfoldable pub label_volumes : TransformContext → Dict Value → Dict Value
label_volumes ctx [] = []
label_volumes ctx ((key, v) ∷ rest) =
    (key, object (from_entries (with_labels ctx "musdash.volume" key (record_or_empty (some v)))))
    ∷ label_volumes ctx rest

abbrev with_volumes : TransformContext → Option (Dict Value) → Dict Value → Dict Value
with_volumes ctx none out = out
with_volumes ctx (some volumes) out =
    set "volumes" (object (from_entries (label_volumes ctx volumes))) out

abbrev pub finish : TransformContext → Dict Value → Option (Dict Value) → Option (Dict Value)
finish ctx out none = none
finish ctx out (some services) =
    let routed = any_routed services ctx in
    let out' = with_networks routed ctx (set "services" (object (from_entries services)) out) in
    some (with_volumes ctx (record_in (get "volumes" out')) out')

abbrev pub transform_parts :
    TransformContext → Option (Dict Value) → Option (Dict Value) → Option (Dict Value)
transform_parts ctx (some model) (some services) =
    finish ctx (set "name" (text ctx.project) model) (transform_services services ctx)
transform_parts ctx _ _ = none

abbrev pub services_of : Option (Dict Value) → Option (Dict Value)
services_of none = none
services_of (some model) = record_in (get "services" model)

unfoldable pub transform_model : Value → TransformContext → Option (Dict Value)
unfolding label_volumes
transform_model model ctx = transform_parts ctx (as_record model) (services_of (as_record model))

-- The bytes of one service that count.
abbrev pub counted_bytes : Option ℤ → ℕ
counted_bytes (some (pos n)) = n
counted_bytes _ = 0

abbrev record_bytes : Option (Dict Value) → ℕ
record_bytes none = 0
record_bytes (some svc) = counted_bytes (effective_memory svc)

unfoldable pub sum_bytes : Dict Value → ℕ
sum_bytes [] = 0
sum_bytes ((name, v) ∷ rest) = record_bytes (as_record v) + sum_bytes rest

abbrev bytes_of : Option (Dict Value) → ℕ
bytes_of none = 0
bytes_of (some services) = sum_bytes services

unfoldable pub stack_memory_bytes : Value → ℕ
stack_memory_bytes model = bytes_of (services_of (as_record model))

abbrev pub mib : ℕ
mib = 1024 * 1024

-- Math.ceil(bytes / MIB)
abbrev pub ceil_mib : ℕ → ℕ
ceil_mib bytes = (bytes + (mib - 1)) / mib

abbrev add_mib : String → ℕ → Dict ℕ → Dict ℕ
add_mib name bytes rest = if bytes == 0 then rest else (name, ceil_mib bytes) ∷ rest

unfoldable pub each_mib : Dict Value → Dict ℕ
each_mib [] = []
each_mib ((name, v) ∷ rest) = add_mib name (record_bytes (as_record v)) (each_mib rest)

abbrev mib_of : Option (Dict Value) → Dict ℕ
mib_of none = []
mib_of (some services) = each_mib services

unfoldable pub service_memory_mib : Value → Dict ℕ
service_memory_mib model = mib_of (services_of (as_record model))
