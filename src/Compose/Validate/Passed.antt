-- ===== src/Compose/Validate/Passed.antt =====
-- What is known of a part of a service when its check adds no refusal (src/compose/validate.ts).
use musdash.Prelude.{
  ℕ, ◌+◌, ◌≡◌, refl, String, Bool, true, false, ◌&&◌, not, Option, none, some, List, [], ◌∷◌, arith,
  str_eq, All, Bool-cases, inl, inr,
}
use musdash.Prelude.Dict.{Dict, get, includes}
use musdash.Compose.Json.{
  Value, null, flag, integer, fraction, text, array, object, elements, as_record,
}
use musdash.Compose.Refusal.{RefusalCode, privileged, security_opt, namespace_host}
use musdash.Compose.Keys.{when}
use musdash.Compose.Mounts.{
  is_docker_socket_path, safe_mount_types, each_from, is_declared, check_type, check_entry,
  check_volume, check_volumes,
}
use musdash.Compose.Service.{
  check_hook, check_namespace_keys, check_security_opt, is_host, lower, privileged_in,
  security_opt_refused, indexed,
}
use musdash.Compose.Validate.Accepted.{left_nil, right_nil, cons-ne-nil, when-false}

-- The entries of a list, where there is one.
abbrev pub items_of : Option Value → List Value
items_of (some (array vs)) = elements vs
items_of _ = []

-- Nothing, or a list whose entries are all so.
abbrev pub EachIs : (Value → Type 0) → Option Value → Type 0
EachIs P none = Unit
EachIs P (some null) = Unit
EachIs P (some (array vs)) = All P (elements vs)
EachIs P (some _) = ⊥

module _ (declared : List String) where
  -- A mount of a type that names no host path; a volume has no source, or one that the file declares.
  abbrev pub HasSafeType : Option Value → Option Value → Type 0
  HasSafeType type source =
      (t : String) × (type ≡ some (text t))
      × (includes t safe_mount_types ≡ true)
      × ((str_eq t "volume" && not (is_declared declared source)) ≡ false)

  abbrev pub IsSafeMount : Value → Type 0
  IsSafeMount v =
      (entry : Dict Value) × (as_record v ≡ some entry)
      × (is_docker_socket_path (get "source" entry) ≡ false)
      × (is_docker_socket_path (get "target" entry) ≡ false)
      × HasSafeType (get "type" entry) (get "source" entry)

module _ (is_valid_image_ref : String → Bool) (declared : List String) where
  typed_safe :
      (at t : String) (source : Option Value)
      → check_type is_valid_image_ref declared at (some (text t)) source ≡ []
      → HasSafeType declared (some (text t)) source
  typed_safe at t source h = elim (Bool-cases (includes t safe_mount_types)) [
    | inl safe ↦ (t, refl, safe, ground arith)
    | inr other ↦ absurd (ground arith)
  ]

  type_safe :
      (at : String) (type source : Option Value)
      → check_type is_valid_image_ref declared at type source ≡ []
      → HasSafeType declared type source
  type_safe at (some (text t)) source h = typed_safe at t source h
  type_safe at none source h = absurd (cons-ne-nil _ _ h)
  type_safe at (some null) source h = absurd (cons-ne-nil _ _ h)
  type_safe at (some (flag b)) source h = absurd (cons-ne-nil _ _ h)
  type_safe at (some (integer z)) source h = absurd (cons-ne-nil _ _ h)
  type_safe at (some fraction) source h = absurd (cons-ne-nil _ _ h)
  type_safe at (some (array vs)) source h = absurd (cons-ne-nil _ _ h)
  type_safe at (some (object fs)) source h = absurd (cons-ne-nil _ _ h)

  entry_safe :
      (at : String) (v : Value) (o : Option (Dict Value))
      → as_record v ≡ o
      → check_entry is_valid_image_ref declared at o ≡ []
      → IsSafeMount declared v
  entry_safe at v none e h = absurd (cons-ne-nil _ _ h)
  entry_safe at v (some entry) e h =
      elim (Bool-cases (is_docker_socket_path (get "source" entry))) [
        | inl socket ↦ absurd (ground arith)
        | inr source ↦ elim (Bool-cases (is_docker_socket_path (get "target" entry))) [
          | inl socket ↦ absurd (ground arith)
          | inr target ↦
              let accepted : check_type is_valid_image_ref declared at (get "type" entry)
                    (get "source" entry)
                  ≡ [] =
                rw (source, target) at h in
              (
                entry,
                e,
                source,
                target,
                type_safe at (get "type" entry) (get "source" entry) accepted,
              )
        ]
      ]

  mounts_safe :
      (i : ℕ) (vs : List Value)
      → each_from (check_volume is_valid_image_ref declared) i vs ≡ []
      → All (IsSafeMount declared) vs
  unfolding each_from check_volume
  mounts_safe i [] h = tt
  mounts_safe i (v ∷ vs) h = (
    entry_safe _ v (as_record v) refl (left_nil _ _ h),
    mounts_safe (i + 1) vs (right_nil (check_volume is_valid_image_ref declared i v) _ h),
  )

  pub volumes_safe :
      (o : Option Value)
      → check_volumes is_valid_image_ref o declared ≡ []
      → EachIs (IsSafeMount declared) o
  unfolding check_volumes
  volumes_safe (some (array vs)) h = mounts_safe 0 (elements vs) h
  volumes_safe none h = tt
  volumes_safe (some null) h = tt
  volumes_safe (some (flag b)) h = cons-ne-nil _ _ h
  volumes_safe (some (integer z)) h = cons-ne-nil _ _ h
  volumes_safe (some fraction) h = cons-ne-nil _ _ h
  volumes_safe (some (text s)) h = cons-ne-nil _ _ h
  volumes_safe (some (object fs)) h = cons-ne-nil _ _ h

-- A check of every entry that adds nothing.
each_passes :
    (p : Value → Bool) (code : RefusalCode) (at : ℕ → String) (i : ℕ) (vs : List Value)
    → each_from (λ k v. when (p v) code (at k)) i vs ≡ []
    → All (λ v. p v ≡ false) vs
unfolding each_from
each_passes p code at i [] h = tt
each_passes p code at i (v ∷ vs) h = (
  when-false (p v) code (at i) (left_nil (when (p v) code (at i)) _ h),
  each_passes p code at (i + 1) vs (right_nil (when (p v) code (at i)) _ h),
)

pub options_safe :
    (o : Option Value) → check_security_opt o ≡ [] → EachIs (λ v. security_opt_refused v ≡ false) o
unfolding check_security_opt
options_safe (some (array vs)) h =
    each_passes security_opt_refused security_opt (indexed "security_opt") 0 (elements vs) h
options_safe none h = tt
options_safe (some null) h = tt
options_safe (some (flag b)) h = cons-ne-nil _ _ h
options_safe (some (integer z)) h = cons-ne-nil _ _ h
options_safe (some fraction) h = cons-ne-nil _ _ h
options_safe (some (text s)) h = cons-ne-nil _ _ h
options_safe (some (object fs)) h = cons-ne-nil _ _ h

abbrev pub IsPlainHook : Value → Type 0
IsPlainHook v = privileged_in (as_record v) ≡ false

pub hooks_plain :
    (hook : String) (o : Option Value) → check_hook hook o ≡ [] → All IsPlainHook (items_of o)
unfolding check_hook
hooks_plain hook (some (array vs)) h =
    each_passes (λ v. privileged_in (as_record v)) privileged (indexed hook) 0 (elements vs) h
hooks_plain hook none h = tt
hooks_plain hook (some null) h = tt
hooks_plain hook (some (flag b)) h = tt
hooks_plain hook (some (integer z)) h = tt
hooks_plain hook (some fraction) h = tt
hooks_plain hook (some (text s)) h = tt
hooks_plain hook (some (object fs)) h = tt

pub namespaces_own :
    (ks : List String) (svc : Dict Value)
    → check_namespace_keys ks svc ≡ []
    → All (λ key. is_host key (lower (get key svc)) ≡ false) ks
unfolding check_namespace_keys
namespaces_own [] svc h = tt
namespaces_own (key ∷ ks) svc h = (
  when-false _ namespace_host key (left_nil _ (check_namespace_keys ks svc) h),
  namespaces_own ks svc
      (right_nil (when (is_host key (lower (get key svc))) namespace_host key) _ h),
)
