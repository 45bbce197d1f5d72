-- ===== src/Compose/Tests.antt =====
-- Tests of the Compose pipeline (src/compose): a stack of one service.
use musdash.Prelude.{◌≡◌, refl, String, Bool, true, some, [], ◌∷◌, arith}
use musdash.Prelude.Dict.{Dict, get, set}
use musdash.Prelude.Show.{show}
use musdash.Compose.Json.{
  Value, null, text, object, Fields, end, field, entries, from_entries, as_record,
}
use musdash.Compose.Refusal.{sort_refusals, sorted, distinct}
use musdash.Compose.Keys.{check_service_keys, check_keys, check_top_level_keys}
use musdash.Compose.Mounts.{network_mode_allowed, check_volumes}
use musdash.Compose.Memory.{check_memory, deploy_memory, effective_memory}
use musdash.Compose.Service.{
  check_service, check_confinement, check_hook, check_namespaces, check_security_opt, check_limits,
  check_volumes_from, check_labels, label_keys,
}
use musdash.Compose.Validate.{
  ValidateContext, validate_model, check_services, check_routed, check_top_level, each_entry,
  is_routable_service_name,
}
use musdash.Compose.Validate.Confined.{Confined, validated-Confined}
use musdash.Compose.Transform.{
  TransformContext, transform_service, transform_model, logging_value, spread, label_map,
  network_map,
}
use musdash.Compose.Transform.Capped.{Capped, transform_service-Capped}
use musdash.Compose.Contract.{validated_transforms}

abbrev web : Fields
web = field "image" (text "nginx") end

abbrev stack : Value
stack = object (field "services" (object (field "web" (object web) end)) end)

abbrev any_image : String → Bool
any_image ref = true

abbrev validate_context : ValidateContext
validate_context = record { project = "musdash-r"; routed_services = "web" ∷ [] }

abbrev context : TransformContext
context = record {
  project = "musdash-r";
  resource_id = "R";
  project_id = "P";
  network = "musdash";
  routed_services = "web" ∷ [];
  default_memory_bytes = 512;
}

stack_passes : validate_model any_image stack validate_context ≡ []
unfolding validate_model get entries sort_refusals sorted distinct check_services check_service
    check_confinement check_service_keys check_keys check_hook network_mode_allowed check_namespaces
    check_volumes check_security_opt check_limits check_memory deploy_memory check_volumes_from
    check_top_level_keys check_labels label_keys check_routed check_top_level each_entry
    is_routable_service_name
stack_passes = refl

validated_transforms_example : (out : Dict Value) × (transform_model stack context ≡ some out)
validated_transforms_example =
    validated_transforms any_image stack validate_context context (omega arith) stack_passes

validated-Confined_example :
    (svc : Dict Value) × (as_record (object web) ≡ some svc) × Confined ("web" ∷ []) [] svc
unfolding get entries
validated-Confined_example =
    validated-Confined any_image stack validate_context
      (("services", object (field "web" (object web) end)) ∷ []) (("web", object web) ∷ []) "web"
      (object web) refl refl stack_passes refl

abbrev labels : Fields
labels = field "musdash.managed" (text "true") (
    field "musdash.resource_id" (text "R")
      (field "musdash.project_id" (text "P") (field "musdash.service" (text "web") end)))

abbrev service_out : Dict Value
service_out =
    ("image", text "nginx")
    ∷ ("labels", object labels)
    ∷ ("mem_limit", text "512")
    ∷ ("memswap_limit", text "512")
    ∷ ("restart", text "unless-stopped")
    ∷ ("logging", logging_value)
    ∷ ("networks", object (field "default" null (field "musdash" null end)))
    ∷ []

service_transforms : transform_service "web" (entries web) context true ≡ some service_out
unfolding transform_service entries from_entries get set spread label_map effective_memory
    deploy_memory network_map show
service_transforms = refl

transform_service-Capped_example : Capped "web" context (entries web) service_out
transform_service-Capped_example =
    transform_service-Capped "web" (entries web) service_out context true service_transforms
