-- ===== src/Compose/Keys.antt =====
-- The keys that a Compose file may use (src/compose/validate.ts, "Key allowlists").
use Prim.Native.String.{◌++◌ as ◌+s◌}
use musdash.Prelude.{
  String, Bool, ◌||◌, Option, none, some, List, [], ◌∷◌, ◌++◌, if◌then◌else◌, str_eq, get_or_else,
  starts_with,
}
use musdash.Prelude.Dict.{Dict, get, includes}
use musdash.Compose.Json.{Value, record_in, as_record, keys}
use musdash.Compose.Refusal.{RefusalCode, include, env_file, build, extends_file, unsupported_key}

-- What `add` was called with, in order.
abbrev pub Added : Type 0
Added = List (RefusalCode × Option String)

abbrev top_level_keys : List String
top_level_keys =
    "services" ∷ "volumes" ∷ "networks" ∷ "configs" ∷ "secrets" ∷ "name" ∷ "version" ∷ []

abbrev top_level_codes : Dict RefusalCode
top_level_codes = ("include", include) ∷ []

abbrev pub service_keys : List String
service_keys =
    "annotations" ∷ "attach" ∷ "cap_add" ∷ "cap_drop" ∷ "cgroup" ∷ "cgroup_parent" ∷ "command"
    ∷ "configs" ∷ "container_name" ∷ "cpu_count" ∷ "cpu_percent" ∷ "cpu_period" ∷ "cpu_quota"
    ∷ "cpu_rt_period" ∷ "cpu_rt_runtime" ∷ "cpu_shares" ∷ "cpus" ∷ "cpuset" ∷ "depends_on"
    ∷ "deploy" ∷ "device_cgroup_rules" ∷ "devices" ∷ "dns" ∷ "dns_opt" ∷ "dns_search" ∷ "domainname"
    ∷ "entrypoint" ∷ "environment" ∷ "expose" ∷ "extends" ∷ "external_links" ∷ "extra_hosts"
    ∷ "gpus" ∷ "group_add" ∷ "healthcheck" ∷ "hostname" ∷ "image" ∷ "init" ∷ "ipc" ∷ "labels"
    ∷ "links" ∷ "logging" ∷ "mac_address" ∷ "mem_limit" ∷ "mem_reservation" ∷ "mem_swappiness"
    ∷ "memswap_limit" ∷ "network_mode" ∷ "networks" ∷ "oom_kill_disable" ∷ "oom_score_adj" ∷ "pid"
    ∷ "pids_limit" ∷ "platform" ∷ "ports" ∷ "post_start" ∷ "pre_stop" ∷ "privileged" ∷ "profiles"
    ∷ "pull_policy" ∷ "read_only" ∷ "restart" ∷ "runtime" ∷ "scale" ∷ "secrets" ∷ "security_opt"
    ∷ "shm_size" ∷ "stdin_open" ∷ "stop_grace_period" ∷ "stop_signal" ∷ "sysctls" ∷ "tmpfs" ∷ "tty"
    ∷ "ulimits" ∷ "user" ∷ "userns_mode" ∷ "uts" ∷ "volumes" ∷ "volumes_from" ∷ "working_dir" ∷ []

abbrev service_codes : Dict RefusalCode
service_codes = ("env_file", env_file) ∷ ("build", build) ∷ []

abbrev extends_keys : List String
extends_keys = "service" ∷ []

abbrev config_secret_keys : List String
config_secret_keys =
    "content" ∷ "environment" ∷ "name" ∷ "labels" ∷ "template_driver" ∷ "external" ∷ "file" ∷ []

abbrev volume_keys : List String
volume_keys = "driver" ∷ "driver_opts" ∷ "labels" ∷ "name" ∷ "external" ∷ []

abbrev network_keys : List String
network_keys =
    "driver" ∷ "driver_opts" ∷ "labels" ∷ "name" ∷ "external" ∷ "internal" ∷ "attachable"
    ∷ "enable_ipv6" ∷ "enable_ipv4" ∷ "ipam" ∷ []

abbrev nested_keys : List (String × List String)
nested_keys =
    ("configs", config_secret_keys)
    ∷ ("secrets", config_secret_keys)
    ∷ ("volumes", volume_keys)
    ∷ ("networks", network_keys)
    ∷ []

abbrev pub is_extension : String → Bool
is_extension key = starts_with key "x-"

abbrev pub one : RefusalCode → String → Added
one code field = (code, some field) ∷ []

-- `if (b) add(code, field)`
abbrev pub when : Bool → RefusalCode → String → Added
when b code field = if b then one code field else []

-- The first loop of checkTopLevelKeys and of checkServiceKeys.
unfoldable pub check_keys : List String → Dict RefusalCode → List String → Added
check_keys allowed codes [] = []
check_keys allowed codes (key ∷ ks) =
    let rest = check_keys allowed codes ks in
    if is_extension key || includes key allowed
    then rest
    else one (get_or_else unsupported_key (get key codes)) key ++ rest

-- The keys of one declared config, secret, volume or network.
check_entry_keys : List String → String → List String → Added
check_entry_keys allowed prefix [] = []
check_entry_keys allowed prefix (key ∷ ks) =
    let rest = check_entry_keys allowed prefix ks in
    if includes key allowed then rest else one unsupported_key (prefix +s "." +s key) ++ rest

abbrev entry_keys : List String → String → Option (Dict Value) → Added
entry_keys allowed prefix none = []
entry_keys allowed prefix (some entry) = check_entry_keys allowed prefix (keys entry)

check_section : String → List String → Dict Value → Added
check_section section allowed [] = []
check_section section allowed ((name, v) ∷ rest) =
    entry_keys allowed (section +s "." +s name) (as_record v) ++ check_section section allowed rest

abbrev section_keys : String → List String → Option (Dict Value) → Added
section_keys section allowed none = []
section_keys section allowed (some es) = check_section section allowed es

check_sections : List (String × List String) → Dict Value → Added
check_sections [] doc = []
check_sections ((section, allowed) ∷ rest) doc =
    section_keys section allowed (record_in (get section doc)) ++ check_sections rest doc

unfoldable pub check_top_level_keys : Dict Value → Added
unfolding check_sections check_section check_entry_keys
check_top_level_keys doc =
    check_keys top_level_keys top_level_codes (keys doc) ++ check_sections nested_keys doc

check_extends : List String → Added
check_extends [] = []
check_extends (key ∷ ks) =
    let rest = check_extends ks in
    if includes key extends_keys
    then rest
    else one (if str_eq key "file" then extends_file else unsupported_key) ("extends." +s key)
      ++ rest

abbrev extends_of : Option (Dict Value) → Added
extends_of none = []
extends_of (some ext) = check_extends (keys ext)

unfoldable pub check_service_keys : Dict Value → Added
unfolding check_extends
check_service_keys svc =
    check_keys service_keys service_codes (keys svc) ++ extends_of (record_in (get "extends" svc))
