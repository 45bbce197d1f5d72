-- ===== src/Compose/Refusal.antt =====
-- Why a Compose file is refused (src/compose/types.ts), and the order of the lines
-- (src/compose/validate.ts, sortRefusals).
use Prim.Native.Nat.{Ordering}
use Prim.Native.String.{compare}
use musdash.Prelude.{
  String, Bool, true, false, Option, none, some, List, [], ◌∷◌, if◌then◌else◌, str_eq, any,
}

-- The codes of the model's stage; those of the prescan that it repeats are among them.
pub data RefusalCode : Type 0 where
  no_services service_not_a_mapping include extends_file env_file file_config file_secret :
      RefusalCode
  build no_image external_secret privileged network_mode namespace_host bind_mount : RefusalCode
  docker_socket volume_external volume_name volume_driver network_external : RefusalCode
  network_name network_driver network_reserved cap_add devices gpus runtime : RefusalCode
  cgroup_parent security_opt oom memory_unlimited memswap ports container_name : RefusalCode
  replicas volumes_from_container reserved_label logging_driver image_invalid : RefusalCode
  external_links routed_unknown routed_network_mode routed_name unsupported_key : RefusalCode
  network_ipam too_large yaml_invalid not_a_mapping : RefusalCode

-- The code as the source spells it.
abbrev pub code_text : RefusalCode → String
code_text no_services = "no-services"
code_text service_not_a_mapping = "service-not-a-mapping"
code_text include = "include"
code_text extends_file = "extends-file"
code_text env_file = "env-file"
code_text file_config = "file-config"
code_text file_secret = "file-secret"
code_text build = "build"
code_text no_image = "no-image"
code_text external_secret = "external-secret"
code_text privileged = "privileged"
code_text network_mode = "network-mode"
code_text namespace_host = "namespace-host"
code_text bind_mount = "bind-mount"
code_text docker_socket = "docker-socket"
code_text volume_external = "volume-external"
code_text volume_name = "volume-name"
code_text volume_driver = "volume-driver"
code_text network_external = "network-external"
code_text network_name = "network-name"
code_text network_driver = "network-driver"
code_text network_reserved = "network-reserved"
code_text cap_add = "cap-add"
code_text devices = "devices"
code_text gpus = "gpus"
code_text runtime = "runtime"
code_text cgroup_parent = "cgroup-parent"
code_text security_opt = "security-opt"
code_text oom = "oom"
code_text memory_unlimited = "memory-unlimited"
code_text memswap = "memswap"
code_text ports = "ports"
code_text container_name = "container-name"
code_text replicas = "replicas"
code_text volumes_from_container = "volumes-from-container"
code_text reserved_label = "reserved-label"
code_text logging_driver = "logging-driver"
code_text image_invalid = "image-invalid"
code_text external_links = "external-links"
code_text routed_unknown = "routed-unknown"
code_text routed_network_mode = "routed-network-mode"
code_text routed_name = "routed-name"
code_text unsupported_key = "unsupported-key"
code_text network_ipam = "network-ipam"
code_text too_large = "too-large"
code_text yaml_invalid = "yaml-invalid"
code_text not_a_mapping = "not-a-mapping"

pub record Refusal : Type 0 where
  pub code : RefusalCode
  pub service : Option String
  pub field : Option String

-- a < b of two texts, which for the names of a Compose file is their order by character.
abbrev pub text_lt : String → String → Bool
text_lt a b = elim (compare a b) [ Ordering.lt ↦ true | _ ↦ false ]

-- compareNullable
unfoldable pub compare_nullable : Option String → Option String → Ordering
compare_nullable none none = Ordering.eq
compare_nullable none (some b) = Ordering.lt
compare_nullable (some a) none = Ordering.gt
compare_nullable (some a) (some b) =
    if str_eq a b then Ordering.eq else if text_lt a b then Ordering.lt else Ordering.gt

-- `x || y` of two comparisons.
abbrev or_ordering : Ordering → Ordering → Ordering
or_ordering Ordering.eq o = o
or_ordering o _ = o

unfoldable pub compare_refusals : Refusal → Refusal → Ordering
compare_refusals a b = or_ordering (compare_nullable a.service b.service) (
    or_ordering (compare_nullable a.field b.field)
      (compare_nullable (some (code_text a.code)) (some (code_text b.code))))

abbrev is_same : Ordering → Bool
is_same Ordering.eq = true
is_same _ = false

abbrev is_after : Ordering → Bool
is_after Ordering.gt = true
is_after _ = false

-- The keys of two refusals are the same text when code, service and field are.
abbrev pub same_key : Refusal → Refusal → Bool
same_key a b = is_same (compare_refusals a b)

-- The loop of sortRefusals: the first of each key, in order.
unfoldable pub distinct : List Refusal → List Refusal → List Refusal
distinct seen [] = []
distinct seen (r ∷ rs) =
    let kept = distinct (r ∷ seen) rs in
    if any (same_key r) seen then distinct seen rs else r ∷ kept

unfoldable pub insert_refusal : Refusal → List Refusal → List Refusal
insert_refusal r [] = r ∷ []
insert_refusal r (q ∷ qs) =
    if is_after (compare_refusals r q) then q ∷ insert_refusal r qs else r ∷ q ∷ qs

-- Array.prototype.sort is stable, and so is this insertion.
unfoldable pub sorted : List Refusal → List Refusal
sorted [] = []
sorted (r ∷ rs) = insert_refusal r (sorted rs)

unfoldable pub sort_refusals : List Refusal → List Refusal
sort_refusals refusals = sorted (distinct [] refusals)
