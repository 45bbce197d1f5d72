-- ===== src/Compose/Validate/Confined.antt =====
-- What a validated service cannot do (src/compose/validate.ts).
use musdash.Prelude.{
  ◌≡◌, refl, subst, String, Bool, false, not, Option, none, some, List, [], ◌∷◌, arith, str_eq, All,
  Bool-cases, inl, inr,
}
use mathlib.Core.Option.{some-injective}
use musdash.Prelude.Dict.{Dict, get}
use musdash.Compose.Json.{
  Value, as_record, record_in, record_or_empty, keys, non_empty, is_true, present,
}
use musdash.Compose.Memory.{resources_of}
use musdash.Compose.Mounts.{network_mode_allowed}
use musdash.Compose.Service.{
  check_service, check_confinement, check_namespaces, is_host, lower, security_opt_refused,
}
use musdash.Compose.Validate.{
  ValidateContext, service_refusals, check_services, validate_services, validate_model,
}
use musdash.Compose.Validate.Accepted.{
  left_nil, right_nil, cons-ne-nil, sort_refusals_nil, refusals_of_nil, when-false,
}
use musdash.Compose.Validate.Passed.{
  items_of, EachIs, IsSafeMount, IsPlainHook, volumes_safe, options_safe, hooks_plain,
  namespaces_own,
}

-- A service that cannot reach the host: neither it nor a hook of its life is privileged, its network
-- is none or that of a service of the file, it shares no namespace of the host, every mount is safe, it
-- gains no capability, no device by any key, no other runtime or control group, and it loosens no
-- security option.
pub record Confined (names declared : List String) (svc : Dict Value) : Type 0 where
  pub plain : is_true (get "privileged" svc) ≡ false
  pub plain_start : All IsPlainHook (items_of (get "post_start" svc))
  pub plain_stop : All IsPlainHook (items_of (get "pre_stop" svc))
  pub network : not (network_mode_allowed (get "network_mode" svc) names) ≡ false
  pub namespaces :
      All
        (λ key. is_host key (lower (get key svc)) ≡ false)
        ("pid" ∷ "ipc" ∷ "uts" ∷ "userns_mode" ∷ "cgroup" ∷ [])
  pub mounts : EachIs (IsSafeMount declared) (get "volumes" svc)
  pub capabilities : non_empty (get "cap_add" svc) ≡ false
  pub no_devices : non_empty (get "devices" svc) ≡ false
  pub no_device_rules : non_empty (get "device_cgroup_rules" svc) ≡ false
  pub no_gpus : present (get "gpus" svc) ≡ false
  pub no_reserved_devices :
      non_empty (get "devices" (record_or_empty (get "reservations" (resources_of svc)))) ≡ false
  pub own_runtime : present (get "runtime" svc) ≡ false
  pub own_cgroup : present (get "cgroup_parent" svc) ≡ false
  pub options : EachIs (λ v. security_opt_refused v ≡ false) (get "security_opt" svc)

module _ (is_valid_image_ref : String → Bool) (names declared : List String) where
  check_service-Confined :
      (svc : Dict Value)
      → check_service is_valid_image_ref svc names declared ≡ []
      → Confined names declared svc
  unfolding check_service check_confinement check_namespaces
  check_service-Confined svc h =
      let all : check_confinement is_valid_image_ref svc names declared ≡ [] = left_nil _ _ h in
      let to_reserved = left_nil _ _ all in
      let to_cgroup = left_nil _ _ to_reserved in
      let to_runtime = left_nil _ _ to_cgroup in
      let to_gpus = left_nil _ _ to_runtime in
      let to_rules = left_nil _ _ to_gpus in
      let to_devices = left_nil _ _ to_rules in
      let to_caps = left_nil _ _ to_devices in
      let to_mounts = left_nil _ _ to_caps in
      let to_namespaces = left_nil _ _ to_mounts in
      let to_network = left_nil _ _ to_namespaces in
      let to_stop = left_nil _ _ to_network in
      let to_start = left_nil _ _ to_stop in
      let to_privileged = left_nil _ _ to_start in
      record {
        plain = when-false _ _ _ (right_nil _ _ to_privileged);
        plain_start = hooks_plain "post_start" (get "post_start" svc) (right_nil _ _ to_start);
        plain_stop = hooks_plain "pre_stop" (get "pre_stop" svc) (right_nil _ _ to_stop);
        network = when-false _ _ _ (right_nil _ _ to_network);
        namespaces =
            namespaces_own ("pid" ∷ "ipc" ∷ "uts" ∷ "userns_mode" ∷ "cgroup" ∷ []) svc
              (right_nil _ _ to_namespaces);
        mounts =
            volumes_safe is_valid_image_ref declared (get "volumes" svc) (right_nil _ _ to_mounts);
        capabilities = when-false _ _ _ (right_nil _ _ to_caps);
        no_devices = when-false _ _ _ (right_nil _ _ to_devices);
        no_device_rules = when-false _ _ _ (right_nil _ _ to_rules);
        no_gpus = when-false _ _ _ (right_nil _ _ to_gpus);
        no_reserved_devices = when-false _ _ _ (right_nil _ _ to_reserved);
        own_runtime = when-false _ _ _ (right_nil _ _ to_runtime);
        own_cgroup = when-false _ _ _ (right_nil _ _ to_cgroup);
        options = options_safe (get "security_opt" svc) (right_nil _ _ all);
      }

  record_Confined :
      (name : String) (o : Option (Dict Value))
      → service_refusals is_valid_image_ref names declared name o ≡ []
      → (svc : Dict Value) × (o ≡ some svc) × Confined names declared svc
  record_Confined name none h = absurd (cons-ne-nil _ _ h)
  record_Confined name (some svc) h =
      (svc, refl, check_service-Confined svc (refusals_of_nil (some name) _ h))

  services_Confined :
      (services : Dict Value) (name : String) (v : Value)
      → check_services is_valid_image_ref names declared services ≡ []
      → get name services ≡ some v
      → (svc : Dict Value) × (as_record v ≡ some svc) × Confined names declared svc
  unfolding check_services get
  services_Confined [] name v h stored = absurd (ground arith)
  services_Confined ((key, w) ∷ rest) name v h stored = elim (Bool-cases (str_eq key name)) [
    | inl same ↦
        let this : w ≡ v = some-injective _ _ (rw same at stored) in
        subst (λ x. (svc : Dict Value) × (as_record x ≡ some svc) × Confined names declared svc)
          this (record_Confined key (as_record w) (left_nil _ _ h))
    | inr other ↦
        services_Confined rest name v
          (right_nil (service_refusals is_valid_image_ref names declared key (as_record w)) _ h)
          (rw other at stored)
  ]

-- In a model with no refusal every service is a mapping, and it is confined. Neither it nor a lifecycle
-- hook in a list is privileged. Its network mode is absent, null, "none" or "service:" and a service of the
-- file. None of its pid, ipc, uts, userns and cgroup namespaces is the host's, and its pid and ipc are no
-- container's. Its mounts are only of the types volume, tmpfs and image, none of them at the Docker
-- socket, and a volume that names a source names one that the file declares. It has no added
-- capability; no device, device rule, GPU or reserved device; no runtime and no parent control group;
-- and no security option that is refused. Any test of image references will do.
pub validated-Confined :
    (is_valid_image_ref : String → Bool) (m : Value) (ctx : ValidateContext)
    (model services : Dict Value) (name : String) (v : Value)
    → as_record m ≡ some model
    → record_in (get "services" model) ≡ some services
    → validate_model is_valid_image_ref m ctx ≡ []
    → get name services ≡ some v
    → (svc : Dict Value) × (as_record v ≡ some svc)
      × Confined (keys services) (keys (record_or_empty (get "volumes" model))) svc
unfolding validate_model get
validated-Confined is_valid_image_ref m ctx model [] name v e q h stored = absurd (ground arith)
validated-Confined is_valid_image_ref m ctx model (s ∷ services) name v e q h stored =
    let accepted : validate_services is_valid_image_ref model (some (s ∷ services)) ctx ≡ [] =
      rw (e, q) at h in
    let none_left = sort_refusals_nil _ accepted in
    services_Confined is_valid_image_ref (keys (s ∷ services))
      (keys (record_or_empty (get "volumes" model))) (s ∷ services) name v
      (left_nil _ _ (left_nil _ _ none_left)) stored
