-- ===== src/Compose/Validate.antt =====
-- The authoritative check of a normalised Compose model (src/compose/validate.ts, checkTopLevel and
-- validateModel).
pub mod Accepted
pub mod Confined
pub mod Passed
use Prim.Native.String.{◌++◌ as ◌+s◌}
use Prim.Native.Char.{code}
use musdash.Prelude.{
  ℕ, zero, suc, String, Bool, true, false, ◌&&◌, ◌||◌, not, Option, none, some, List, [], ◌∷◌, ◌++◌,
  if◌then◌else◌, str_eq, ◌==◌, leb, map, all, length,
}
use musdash.Prelude.Code.{codes}
use musdash.Prelude.Dict.{Dict, get, has}
use musdash.Compose.Json.{
  Value, flag, text, object, entries, as_record, record_in, record_or_empty, keys, present, is_true,
}
use musdash.Compose.Refusal.{
  RefusalCode, Refusal, sort_refusals, no_services, service_not_a_mapping, volume_external,
  volume_name, volume_driver, network_ipam, network_reserved, network_external, network_name,
  network_driver, file_config, file_secret, external_secret, routed_unknown, routed_name,
  routed_network_mode,
}
use musdash.Compose.Keys.{Added, one, when, check_top_level_keys}
use musdash.Compose.Service.{check_service, check_labels}

-- `/^[a-z0-9-]{1,26}$/`
abbrev is_label_char : ℕ → Bool
is_label_char c = leb b'a' c && leb c b'z' || leb b'0' c && leb c b'9' || c == b'-'

unfoldable pub is_routable_service_name : String → Bool
is_routable_service_name name =
    let cs = codes name in leb 1 (length cs) && leb (length cs) 26 && all is_label_char cs

-- `x === true || x === "true"`
abbrev pub is_external : Option Value → Bool
is_external (some (flag true)) = true
is_external (some (text s)) = str_eq s "true"
is_external _ = false

abbrev pub is_text : String → Option Value → Bool
is_text s (some (text t)) = str_eq t s
is_text s _ = false

-- A driver other than the default, or options for it.
abbrev has_driver : String → Dict Value → Bool
has_driver standard v =
    present (get "driver" v) && not (is_text standard (get "driver" v))
    || present (get "driver_opts" v)

unfoldable pub check_volume_entry : String → String → Dict Value → Added
check_volume_entry project key vol =
    let at = "volumes." +s key in
    check_labels (get "labels" vol) (at +s ".labels")
    ++ when (is_external (get "external" vol)) volume_external at
    ++ when (not (is_text (project +s "_" +s key) (get "name" vol))) volume_name at
    ++ when (has_driver "local" vol) volume_driver at

abbrev is_empty_record : Option Value → Bool
is_empty_record (some (object fs)) = length (entries fs) == 0
is_empty_record _ = false

unfoldable pub check_network_entry : String → String → Dict Value → Added
check_network_entry project key net =
    let at = "networks." +s key in
    check_labels (get "labels" net) (at +s ".labels")
    ++ when (present (get "ipam" net) && not (is_empty_record (get "ipam" net))) network_ipam
        (at +s ".ipam")
    ++ when (str_eq key "musdash" || is_text "musdash" (get "name" net)) network_reserved at
    ++ when (is_external (get "external" net)) network_external at
    ++ when (not (is_text (project +s "_" +s key) (get "name" net))) network_name at
    ++ when (has_driver "bridge" net) network_driver at

abbrev config_entry : String → Option (Dict Value) → Added
config_entry key none = []
config_entry key (some c) = when (present (get "file" c)) file_config ("configs." +s key)

abbrev secret_entry : String → Option (Dict Value) → Added
secret_entry key none = []
secret_entry key (some s) =
    when (present (get "file" s)) file_secret ("secrets." +s key)
    ++ when (is_external (get "external" s)) external_secret ("secrets." +s key)

-- A loop over the entries of a section.
unfoldable pub each_entry : (String → Value → Added) → Dict Value → Added
each_entry f [] = []
each_entry f ((key, v) ∷ rest) = f key v ++ each_entry f rest

unfoldable pub check_top_level : Dict Value → String → Added
check_top_level model project =
    check_top_level_keys model
    ++ each_entry (λ key v. check_volume_entry project key (record_or_empty (some v)))
        (record_or_empty (get "volumes" model))
    ++ each_entry (λ key v. check_network_entry project key (record_or_empty (some v)))
        (record_or_empty (get "networks" model))
    ++ each_entry (λ key v. config_entry key (as_record v)) (record_or_empty (get "configs" model))
    ++ each_entry (λ key v. secret_entry key (as_record v)) (record_or_empty (get "secrets" model))

-- ValidateContext
pub record ValidateContext : Type 0 where
  pub project : String
  pub routed_services : List String

abbrev pub refusals_of : Option String → Added → List Refusal
refusals_of service added = map (λ a. record { code = a.0; service = service; field = a.1 }) added

abbrev pub no_services_refusal : List Refusal
no_services_refusal = record { code = no_services; service = none; field = some "services" } ∷ []

module _ (is_valid_image_ref : String → Bool) where
  abbrev pub service_refusals :
      List String → List String → String → Option (Dict Value) → List Refusal
  service_refusals names declared name none =
      record { code = service_not_a_mapping; service = some name; field = none } ∷ []
  service_refusals names declared name (some svc) =
      refusals_of (some name) (check_service is_valid_image_ref svc names declared)

  -- The loop over the services.
  unfoldable pub check_services : List String → List String → Dict Value → List Refusal
  check_services names declared [] = []
  check_services names declared ((name, v) ∷ rest) =
      service_refusals names declared name (as_record v) ++ check_services names declared rest

  abbrev pub routed_refusals : String → Option (Dict Value) → List Refusal
  routed_refusals name none =
      record { code = routed_unknown; service = some name; field = none } ∷ []
  routed_refusals name (some svc) =
      (if is_routable_service_name name
        then []
        else record { code = routed_name; service = some name; field = none } ∷ [])
      ++ (if present (get "network_mode" svc)
          then record {
            code = routed_network_mode;
            service = some name;
            field = some "network_mode";
          }
            ∷ []
          else [])

  -- The loop over the routed services.
  unfoldable pub check_routed : List String → Dict Value → List Refusal
  check_routed [] services = []
  check_routed (name ∷ names) services =
      routed_refusals name (record_in (get name services)) ++ check_routed names services

  abbrev pub all_refusals : Dict Value → Dict Value → ValidateContext → List Refusal
  all_refusals model services ctx =
      check_services (keys services) (keys (record_or_empty (get "volumes" model))) services
      ++ refusals_of none (check_top_level model ctx.project)
      ++ check_routed ctx.routed_services services

  abbrev pub validate_services : Dict Value → Option (Dict Value) → ValidateContext → List Refusal
  validate_services model none ctx = no_services_refusal
  validate_services model (some []) ctx = no_services_refusal
  validate_services model (some (s ∷ services)) ctx =
      sort_refusals (all_refusals model (s ∷ services) ctx)

  abbrev pub validate_record : Option (Dict Value) → ValidateContext → List Refusal
  validate_record none ctx = no_services_refusal
  validate_record (some model) ctx = validate_services model (record_in (get "services" model)) ctx

  unfoldable pub validate_model : Value → ValidateContext → List Refusal
  validate_model model ctx = validate_record (as_record model) ctx
