-- ===== src/Compose/Service.antt =====
-- The rules on one service (src/compose/validate.ts, checkService and the checks it calls).
use Prim.Native.Char.{code}
use Prim.Native.String.{◌++◌ as ◌+s◌}
use musdash.Prelude.{
  ℕ, String, Bool, true, false, ◌&&◌, ◌||◌, not, Option, none, some, List, [], ◌∷◌, ◌++◌,
  if◌then◌else◌, str_eq, ◌==◌, starts_with, find?, is_some, map_option,
}
use musdash.Prelude.Dict.{Dict, get}
use musdash.Prelude.Case.{to_lower}
use musdash.Prelude.Show.{show}
use musdash.Compose.Json.{
  ℤ, Value, null, text, array, object, elements, as_record, as_text, record_or_empty, keys, present,
  non_empty, integer_in, is_negative, exceeds_one, is_true,
}
use musdash.Compose.Refusal.{
  privileged, network_mode, namespace_host, cap_add, devices, gpus, runtime, cgroup_parent,
  security_opt, oom, ports, container_name, replicas, volumes_from_container, external_links,
  reserved_label, logging_driver, no_image, image_invalid,
}
use musdash.Compose.Keys.{Added, one, when, check_service_keys}
use musdash.Compose.Mounts.{network_mode_allowed, each_from, check_volumes, is_image}
use musdash.Compose.Memory.{resources_of, check_memory}

-- `value.includes(part)`
abbrev contains : String → String → Bool
contains s part = is_some (find? s part)

-- lower of a property; none where it is no string.
abbrev pub lower : Option Value → Option String
lower none = none
lower (some v) = map_option to_lower (as_text v)

abbrev pub is_host : String → Option String → Bool
is_host key none = false
is_host key (some value) =
    str_eq value "host" || (str_eq key "pid" || str_eq key "ipc") && starts_with value "container:"

-- The loop of checkNamespaces.
unfoldable pub check_namespace_keys : List String → Dict Value → Added
check_namespace_keys [] svc = []
check_namespace_keys (key ∷ ks) svc =
    when (is_host key (lower (get key svc))) namespace_host key ++ check_namespace_keys ks svc

unfoldable pub check_namespaces : Dict Value → Added
unfolding check_namespace_keys
check_namespaces svc =
    check_namespace_keys ("pid" ∷ "ipc" ∷ "uts" ∷ "userns_mode" ∷ "cgroup" ∷ []) svc

abbrev loosens : String → Bool
loosens value =
    contains value "unconfined"
    || contains value "=disable"
    || contains value ":disable"
    || starts_with value "seccomp"
    || starts_with value "label" && (contains value "spc_t" || contains value "disable")

abbrev pub security_opt_refused : Value → Bool
security_opt_refused (text entry) = loosens (to_lower entry)
security_opt_refused _ = true

abbrev pub indexed : String → ℕ → String
indexed field i = field +s "[" +s show i +s "]"

unfoldable pub check_security_opt : Option Value → Added
unfolding each_from
check_security_opt none = []
check_security_opt (some null) = []
check_security_opt (some (array vs)) =
    each_from (λ i v. when (security_opt_refused v) security_opt (indexed "security_opt" i)) 0
      (elements vs)
check_security_opt (some _) = one security_opt "security_opt"

abbrev pub privileged_in : Option (Dict Value) → Bool
privileged_in none = false
privileged_in (some hook) = is_true (get "privileged" hook)

-- One of the two lifecycle hooks.
unfoldable pub check_hook : String → Option Value → Added
unfolding each_from
check_hook hook (some (array vs)) =
    each_from (λ i v. when (privileged_in (as_record v)) privileged (indexed hook i)) 0
      (elements vs)
check_hook hook _ = []

-- The text before the first `=`.
before_eq : String → String
before_eq String.[] = String.[]
before_eq (String.◌∷◌ c s) = if code c == b'=' then String.[] else String.◌∷◌ c (before_eq s)

list_keys : List Value → List String
list_keys [] = []
list_keys (text l ∷ vs) = before_eq l ∷ list_keys vs
list_keys (_ ∷ vs) = list_keys vs

unfoldable pub label_keys : Option Value → List String
unfolding list_keys before_eq
label_keys (some (object fs)) = keys (record_or_empty (some (object fs)))
label_keys (some (array vs)) = list_keys (elements vs)
label_keys _ = []

abbrev pub is_reserved : String → Bool
is_reserved key =
    let k = to_lower key in starts_with k "musdash." || starts_with k "com.docker.compose."

reserved_labels : List String → String → Added
reserved_labels [] prefix = []
reserved_labels (key ∷ ks) prefix =
    when (is_reserved key) reserved_label (prefix +s "." +s key) ++ reserved_labels ks prefix

unfoldable pub check_labels : Option Value → String → Added
unfolding reserved_labels
check_labels labels prefix = reserved_labels (label_keys labels) prefix

abbrev over_one : Option ℤ → Bool
over_one none = false
over_one (some n) = exceeds_one n

abbrev lowered : Option ℤ → Bool
lowered none = true
lowered (some adj) = is_negative adj

abbrev from_container : Value → Bool
from_container (text entry) = starts_with entry "container:"
from_container _ = true

unfoldable pub check_volumes_from : Option Value → Added
unfolding each_from
check_volumes_from (some (array vs)) =
    each_from (λ i v. when (from_container v) volumes_from_container (indexed "volumes_from" i)) 0
      (elements vs)
check_volumes_from _ = []

abbrev is_json_file : Option Value → Bool
is_json_file (some (text driver)) = str_eq driver "json-file"
is_json_file _ = false

module _ (is_valid_image_ref : String → Bool) where
  abbrev check_image : Option Value → Added
  check_image none = one no_image "image"
  check_image (some null) = one no_image "image"
  check_image image = when (not (is_image is_valid_image_ref image)) image_invalid "image"

  -- The rules up to the resource limits.
  unfoldable pub check_confinement : Dict Value → List String → List String → Added
  check_confinement svc names declared =
      check_service_keys svc
      ++ when (is_true (get "privileged" svc)) privileged "privileged"
      ++ check_hook "post_start" (get "post_start" svc)
      ++ check_hook "pre_stop" (get "pre_stop" svc)
      ++ when (not (network_mode_allowed (get "network_mode" svc) names)) network_mode
          "network_mode"
      ++ check_namespaces svc
      ++ check_volumes is_valid_image_ref (get "volumes" svc) declared
      ++ when (non_empty (get "cap_add" svc)) cap_add "cap_add"
      ++ when (non_empty (get "devices" svc)) devices "devices"
      ++ when (non_empty (get "device_cgroup_rules" svc)) devices "device_cgroup_rules"
      ++ when (present (get "gpus" svc)) gpus "gpus"
      ++ when (present (get "runtime" svc)) runtime "runtime"
      ++ when (present (get "cgroup_parent" svc)) cgroup_parent "cgroup_parent"
      ++ when (non_empty (get "devices" (record_or_empty (get "reservations" (resources_of svc)))))
          devices "deploy.resources.reservations.devices"
      ++ check_security_opt (get "security_opt" svc)

  -- The rest of them.
  unfoldable pub check_limits : Dict Value → Added
  check_limits svc =
      when (is_true (get "oom_kill_disable" svc)) oom "oom_kill_disable"
      ++ when (present (get "oom_score_adj" svc) && lowered (integer_in (get "oom_score_adj" svc)))
          oom "oom_score_adj"
      ++ check_memory svc
      ++ when (non_empty (get "ports" svc)) ports "ports"
      ++ when (present (get "container_name" svc)) container_name "container_name"
      ++ when (over_one (integer_in (get "replicas" (record_or_empty (get "deploy" svc))))) replicas
          "deploy.replicas"
      ++ when (over_one (integer_in (get "scale" svc))) replicas "scale"
      ++ check_volumes_from (get "volumes_from" svc)
      ++ when (non_empty (get "external_links" svc)) external_links "external_links"
      ++ check_labels (get "labels" svc) "labels"
      ++ when
          (present (get "driver" (record_or_empty (get "logging" svc)))
            && not (is_json_file (get "driver" (record_or_empty (get "logging" svc)))))
          logging_driver "logging.driver"
      ++ check_image (get "image" svc)

  unfoldable pub check_service : Dict Value → List String → List String → Added
  check_service svc names declared = check_confinement svc names declared ++ check_limits svc
