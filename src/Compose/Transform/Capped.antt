-- ===== src/Compose/Transform/Capped.antt =====
-- What every service has after the transform (src/compose/transform.ts, transformService).
use musdash.Prelude.{
  ℕ, ◌≡◌, ◌⊎◌, inl, inr, refl, sym, ◌∙◌, ap, String, Bool, true, false, Option, none, some, arith,
  str_eq, Bool-cases, Option-cases,
}
use mathlib.Core.Option.{some-injective}
use musdash.Prelude.Dict.{Dict, get, set, get-set}
use musdash.Prelude.Show.{show}
use musdash.Compose.Json.{
  ℤ, pos, Value, text, object, from_entries, entries-from_entries, present, is_positive,
  record_or_empty,
}
use musdash.Compose.Memory.{effective_memory}
use musdash.Compose.Transform.{
  TransformContext, with_labels, limit_text, has_unread_limit, with_limit, without_swap,
  with_restart, with_network, logging_value, transform_service, spread, ownership, label_map,
}
use musdash.Compose.Transform.Limits.{KeepsLimits, effective_memory-KeepsLimits, labels_keep}

-- The last steps of the transform, which write the log driver, the restart policy and the networks.
abbrev completed : Bool → Dict Value → Dict Value
completed routed s = with_network routed (set "logging" logging_value (with_restart s))

restart_passes :
    (k : String) (s : Dict Value) → str_eq "restart" k ≡ false → get k (with_restart s) ≡ get k s
restart_passes k s e = elim (Bool-cases (present (get "restart" s))) [
  | inl p ↦ rw p
  | inr p ↦ rw (p, get-set, e)
]

network_passes :
    (k : String) (routed : Bool) (s : Dict Value)
    → str_eq "networks" k ≡ false
    → get k (with_network routed s) ≡ get k s
network_passes k true s e = rw (get-set, e)
network_passes k false s e = refl

completed_passes :
    (k : String) (routed : Bool) (s : Dict Value)
    → str_eq "restart" k ≡ false
    → str_eq "networks" k ≡ false
    → str_eq "logging" k ≡ false
    → get k (completed routed s) ≡ get k s
completed_passes k routed s r n l =
    network_passes k routed (set "logging" logging_value (with_restart s)) n
    ∙ rw (get-set, l) (restart_passes k s r)

completed_logs :
    (routed : Bool) (s : Dict Value) → get "logging" (completed routed s) ≡ some logging_value
completed_logs routed s =
    network_passes "logging" routed (set "logging" logging_value (with_restart s)) refl ∙ rw get-set

has_restart : (s : Dict Value) → present (get "restart" (with_restart s)) ≡ true
has_restart s = elim (Bool-cases (present (get "restart" s))) [
  | inl p ↦ rw (p, p)
  | inr p ↦ rw (p, get-set)
]

completed_restarts :
    (routed : Bool) (s : Dict Value) → present (get "restart" (completed routed s)) ≡ true
completed_restarts routed s =
    ap present (
      network_passes "restart" routed (set "logging" logging_value (with_restart s)) refl
      ∙ rw get-set)
    ∙ has_restart s

-- The swap limit is written next to a positive memory limit.
without_swap_inv :
    (o : Option (ℤ × Dict Value)) (s : Dict Value)
    → without_swap o ≡ some s
    → (z : ℤ) × (s₀ : Dict Value) × (o ≡ some (z, s₀))
      × (is_positive z ≡ true)
      × (set "memswap_limit" (text (limit_text z)) s₀ ≡ s)
without_swap_inv none s h = cc
without_swap_inv (some (z, s₀)) s h = elim (Bool-cases (is_positive z)) [
  | inl p ↦ (z, s₀, refl, p, some-injective _ _ (rw p at h))
  | inr p ↦ absurd (ground arith)
]

module _ (z : ℤ) (s₀ s out : Dict Value) (routed : Bool)
    (written : set "memswap_limit" (text (limit_text z)) s₀ ≡ s)
    (same : completed routed s ≡ out) where
  written_passes :
      (k : String)
      → str_eq "restart" k ≡ false
      → str_eq "networks" k ≡ false
      → str_eq "logging" k ≡ false
      → str_eq "memswap_limit" k ≡ false
      → get k out ≡ get k s₀
  written_passes k r n l m =
      ap (get k) (sym same)
      ∙ completed_passes k routed s r n l
      ∙ ap (get k) (sym written)
      ∙ rw (get-set, m)

  swap_written : get "memswap_limit" out ≡ some (text (limit_text z))
  swap_written =
      ap (get "memswap_limit") (sym same)
      ∙ completed_passes "memswap_limit" routed s refl refl refl
      ∙ ap (get "memswap_limit") (sym written)
      ∙ rw get-set

-- The limit is the one that the service had, or the default.
abbrev pub LimitFrom : ℕ → Dict Value → Dict Value → ℤ → Type 0
LimitFrom default_bytes svc out z =
    (effective_memory svc ≡ some z) × (effective_memory out ≡ some z)
    ⊎ (effective_memory svc ≡ none)
      × (z ≡ pos default_bytes)
      × (get "mem_limit" out ≡ some (text (show default_bytes)))

-- A service as the transform leaves it: a positive memory limit with swap off, the capped log
-- driver, a restart policy, and the labels of its owner.
pub record Capped (name : String) (ctx : TransformContext) (svc out : Dict Value) : Type 0 where
  pub limit : ℤ
  pub limited : is_positive limit ≡ true
  pub from : LimitFrom ctx.default_memory_bytes svc out limit
  pub swap_off : get "memswap_limit" out ≡ some (text (limit_text limit))
  pub logs : get "logging" out ≡ some logging_value
  pub restarts : present (get "restart" out) ≡ true
  pub managed : get "musdash.managed" (record_or_empty (get "labels" out)) ≡ some (text "true")
  pub owner :
      get "musdash.resource_id" (record_or_empty (get "labels" out)) ≡ some (text ctx.resource_id)
  pub service : get "musdash.service" (record_or_empty (get "labels" out)) ≡ some (text name)

with_limit-from :
    (default_bytes : ℕ) (svc labelled s₀ out : Dict Value) (z : ℤ) (o : Option ℤ)
    → effective_memory labelled ≡ o
    → KeepsLimits svc labelled
    → with_limit default_bytes labelled o ≡ some (z, s₀)
    → KeepsLimits s₀ out
    → LimitFrom default_bytes svc out z
with_limit-from default_bytes svc labelled s₀ out z (some l) e k h k' =
    let pair = some-injective _ _ h in
    let same : l ≡ z = ap (λ (q : ℤ × Dict Value). q.0) pair in
    let stored : labelled ≡ s₀ = ap (λ (q : ℤ × Dict Value). q.1) pair in
    let read : effective_memory labelled ≡ some z = e ∙ ap some same in
    inl (
      sym (effective_memory-KeepsLimits svc labelled k) ∙ read,
      effective_memory-KeepsLimits s₀ out k' ∙ ap effective_memory (sym stored) ∙ read,
    )
with_limit-from default_bytes svc labelled s₀ out z none e k h k' =
    elim (Bool-cases (has_unread_limit labelled)) [
      | inl unread ↦ absurd (ground arith)
      | inr unset ↦
          let pair = some-injective _ _ (rw unset at h) in
          let same : pos default_bytes ≡ z = ap (λ (q : ℤ × Dict Value). q.0) pair in
          let stored : set "mem_limit" (text (show default_bytes)) labelled ≡ s₀ =
            ap (λ (q : ℤ × Dict Value). q.1) pair in
          inr (
            sym (effective_memory-KeepsLimits svc labelled k) ∙ e,
            sym same,
            k'.0 ∙ rw (← stored, get-set),
          )
    ]

-- The labels pass the steps behind them.
abbrev labels_written : TransformContext → String → Dict Value → Value
labels_written ctx name svc =
    object
      (from_entries (spread (label_map (get "labels" svc)) (ownership ctx "musdash.service" name)))

with_limit-labels :
    (default_bytes : ℕ) (labelled s₀ : Dict Value) (z : ℤ) (o : Option ℤ)
    → with_limit default_bytes labelled o ≡ some (z, s₀)
    → get "labels" s₀ ≡ get "labels" labelled
with_limit-labels default_bytes labelled s₀ z (some l) h =
    ap (λ (q : ℤ × Dict Value). get "labels" q.1) (sym (some-injective _ _ h))
with_limit-labels default_bytes labelled s₀ z none h =
    elim (Bool-cases (has_unread_limit labelled)) [
      | inl unread ↦ absurd (ground arith)
      | inr unset ↦
          ap (λ (q : ℤ × Dict Value). get "labels" q.1) (sym (some-injective _ _ (rw unset at h)))
          ∙ rw get-set
    ]

labels_out :
    (ctx : TransformContext) (name : String) (svc out : Dict Value)
    → get "labels" out ≡ some (labels_written ctx name svc)
    → (get "musdash.managed" (record_or_empty (get "labels" out)) ≡ some (text "true"))
      × (get "musdash.resource_id" (record_or_empty (get "labels" out))
          ≡ some (text ctx.resource_id))
      × (get "musdash.service" (record_or_empty (get "labels" out)) ≡ some (text name))
unfolding spread
labels_out ctx name svc out e = (
  rw (e, entries-from_entries, get-set, get-set, get-set, get-set),
  rw (e, entries-from_entries, get-set, get-set, get-set),
  rw (e, entries-from_entries, get-set),
)

-- A service that the transform returns has a positive memory limit, its own or the default, with
-- the swap limit equal to it; the capped log driver; a restart policy; and the labels that name it
-- and its resource.
pub transform_service-Capped :
    (name : String) (svc out : Dict Value) (ctx : TransformContext) (routed : Bool)
    → transform_service name svc ctx routed ≡ some out
    → Capped name ctx svc out
unfolding transform_service
transform_service-Capped name svc out ctx routed h =
    let labelled = with_labels ctx "musdash.service" name svc in
    let o = effective_memory labelled in
    elim (Option-cases (without_swap (with_limit ctx.default_memory_bytes labelled o))) [
      | inl e ↦ absurd (ground arith)
      | inr (s, e) ↦
          let (z, s₀, limited, positive, written) =
            without_swap_inv (with_limit ctx.default_memory_bytes labelled o) s e in
          let same : completed routed s ≡ out = some-injective _ _ (rw e at h) in
          let through = written_passes z s₀ s out routed written same in
          let keeps : KeepsLimits s₀ out =
            (through "mem_limit" refl refl refl refl, through "deploy" refl refl refl refl) in
          let labels : get "labels" out ≡ some (labels_written ctx name svc) =
            through "labels" refl refl refl refl
            ∙ with_limit-labels ctx.default_memory_bytes labelled s₀ z o limited
            ∙ rw get-set in
          let (managed, owner, service) = labels_out ctx name svc out labels in
          record {
            limit = z;
            limited = positive;
            from =
                with_limit-from ctx.default_memory_bytes svc labelled s₀ out z o refl
                  (labels_keep ctx "musdash.service" name svc) limited keeps;
            swap_off = swap_written z s₀ s out routed written same;
            logs = ap (get "logging") (sym same) ∙ completed_logs routed s;
            restarts = ap (λ m. present (get "restart" m)) (sym same) ∙ completed_restarts routed s;
            managed = managed;
            owner = owner;
            service = service;
          }
    ]
