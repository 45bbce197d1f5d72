-- ===== src/Compose/Contract.antt =====
-- The precondition of the transform is what validation establishes (src/compose/validate.ts,
-- src/compose/transform.ts).
use musdash.Prelude.{
  ◌<◌, ◌≡◌, ◌⊎◌, inl, inr, refl, ◌∙◌, String, Bool, true, false, Option, none, some, List, [], ◌∷◌,
  ltb, lt→ltb,
}
use musdash.Prelude.Dict.{Dict, get, set, includes}
use musdash.Compose.Json.{
  ℤ, Value, text, object, from_entries, as_record, record_in, record_or_empty, keys,
}
use musdash.Prelude.Show.{show}
use musdash.Compose.Memory.{effective_memory, check_memory}
use musdash.Compose.Service.{check_service, check_limits}
use musdash.Compose.Validate.{
  ValidateContext, service_refusals, check_services, validate_services, validate_record,
  validate_model,
}
use musdash.Compose.Validate.Accepted.{
  left_nil, right_nil, cons-ne-nil, sort_refusals_nil, refusals_of_nil,
}
use musdash.Compose.Transform.{
  TransformContext, with_labels, has_unread_limit, with_limit, without_swap, transform_service,
  limit_text, with_network, with_restart, logging_value, transform_record, transform_services,
  transform_parts, services_of, finish, transform_model,
}
use musdash.Compose.Transform.Limits.{
  effective_memory-KeepsLimits, has_unread_limit-KeepsLimits, labels_keep, GoodLimit,
  check_memory-limits,
}

positive_transforms :
    (ctx : TransformContext) (labelled : Dict Value) (o : Option ℤ)
    → 0 < ctx.default_memory_bytes
    → GoodLimit o ⊎ (o ≡ none) × (has_unread_limit labelled ≡ false)
    → (s : Dict Value) × (without_swap (with_limit ctx.default_memory_bytes labelled o) ≡ some s)
positive_transforms ctx labelled o d (inl (z, e, p)) =
    (set "memswap_limit" (text (limit_text z)) labelled, rw (e, p))
positive_transforms ctx labelled o d (inr (e, u)) =
    let there : ltb 0 ctx.default_memory_bytes ≡ true = lt→ltb 0 ctx.default_memory_bytes d in
    let default_text = text (show ctx.default_memory_bytes) in
    (set "memswap_limit" default_text (set "mem_limit" default_text labelled), rw (e, u, there))

transform_service_total :
    (name : String) (svc : Dict Value) (ctx : TransformContext) (routed : Bool)
    → 0 < ctx.default_memory_bytes
    → check_memory svc ≡ []
    → (out : Dict Value) × (transform_service name svc ctx routed ≡ some out)
unfolding transform_service
transform_service_total name svc ctx routed d h =
    let labelled = with_labels ctx "musdash.service" name svc in
    let k = labels_keep ctx "musdash.service" name svc in
    let same = effective_memory-KeepsLimits svc labelled k in
    let unread = has_unread_limit-KeepsLimits svc labelled k in
    let limits : GoodLimit (effective_memory labelled)
        ⊎ (effective_memory labelled ≡ none) × (has_unread_limit labelled ≡ false) =
      elim (check_memory-limits svc h) [
        | inl (z, e, p) ↦ inl (z, same ∙ e, p)
        | inr (e, u) ↦ inr (same ∙ e, unread ∙ u)
      ] in
    let (s, e) = positive_transforms ctx labelled (effective_memory labelled) d limits in
    (with_network routed (set "logging" logging_value (with_restart s)), rw e)

finish_total :
    (ctx : TransformContext) (base : Dict Value) (o : Option (Dict Value)) (services : Dict Value)
    → o ≡ some services
    → (out : Dict Value) × (finish ctx base o ≡ some out)
finish_total ctx base none services e = cc
finish_total ctx base (some done) services e = (_, refl)

module _ (is_valid_image_ref : String → Bool) where
  service_memory :
      (svc : Dict Value) (names declared : List String)
      → check_service is_valid_image_ref svc names declared ≡ []
      → check_memory svc ≡ []
  unfolding check_service check_limits
  service_memory svc names declared h =
      let limits : check_limits is_valid_image_ref svc ≡ [] = right_nil _ _ h in
      right_nil _ _ (
        left_nil _ _ (
          left_nil _ _ (
            left_nil _ _ (
              left_nil _ _ (
                left_nil _ _ (left_nil _ _ (left_nil _ _ (left_nil _ _ (left_nil _ _ limits)))))))))

  -- The services that validation passes are those that the loop of the transform takes.
  services_total :
      (services : Dict Value) (names declared : List String) (ctx : TransformContext)
      → 0 < ctx.default_memory_bytes
      → check_services is_valid_image_ref names declared services ≡ []
      → (out : Dict Value) × (transform_services services ctx ≡ some out)
  unfolding check_services transform_services
  services_total [] names declared ctx d h = ([], refl)
  services_total ((name, v) ∷ rest) names declared ctx d h =
      let (more, e) =
        services_total rest names declared ctx d
          (right_nil (service_refusals is_valid_image_ref names declared name (as_record v)) _ h) in
      let (out, q) = record_total (as_record v) (left_nil _ _ h) in
      ((name, object (from_entries out)) ∷ more, rw (e, q))
    where
      record_total :
          (o : Option (Dict Value))
          → service_refusals is_valid_image_ref names declared name o ≡ []
          → (out : Dict Value) × (transform_record name o ctx ≡ some out)
      record_total none refused = absurd (cons-ne-nil _ _ refused)
      record_total (some svc) accepted =
          transform_service_total name svc ctx (includes name ctx.routed_services) d
            (service_memory svc names declared (refusals_of_nil (some name) _ accepted))

  parts_total :
      (o : Option (Dict Value)) (v : ValidateContext) (ctx : TransformContext)
      → 0 < ctx.default_memory_bytes
      → validate_record is_valid_image_ref o v ≡ []
      → (out : Dict Value) × (transform_parts ctx o (services_of o) ≡ some out)
  parts_total none v ctx d h = absurd (cons-ne-nil _ _ h)
  parts_total (some model) v ctx d h = with_services (record_in (get "services" model)) h
    where
      with_services :
          (o : Option (Dict Value))
          → validate_services is_valid_image_ref model o v ≡ []
          → (out : Dict Value) × (transform_parts ctx (some model) o ≡ some out)
      with_services none refused = absurd (cons-ne-nil _ _ refused)
      with_services (some []) refused = absurd (cons-ne-nil _ _ refused)
      with_services (some (s ∷ services)) accepted =
          let none_left = sort_refusals_nil _ accepted in
          let (out, e) =
            services_total (s ∷ services) (keys (s ∷ services))
              (keys (record_or_empty (get "volumes" model))) ctx d
              (left_nil _ _ (left_nil _ _ none_left)) in
          finish_total ctx (set "name" (text ctx.project) model)
            (transform_services (s ∷ services) ctx) out e

  -- A model with no refusal can be transformed: where the default limit is positive, transformModel
  -- does not throw on any model that validateModel accepts, whatever the two contexts.
  pub validated_transforms :
      (model : Value) (v : ValidateContext) (ctx : TransformContext)
      → 0 < ctx.default_memory_bytes
      → validate_model is_valid_image_ref model v ≡ []
      → (out : Dict Value) × (transform_model model ctx ≡ some out)
  unfolding validate_model transform_model
  validated_transforms model v ctx d h = parts_total (as_record model) v ctx d h
