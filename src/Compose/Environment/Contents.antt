-- ===== src/Compose/Environment/Contents.antt =====
-- What interpolationEnv (src/compose/env.ts) passes on, reports and withholds, name by name.
use musdash.Prelude.{
  ◌≡◌, refl, sym, ap, ◌∙◌, subst, Bool, true, false, ◌&&◌, ◌||◌, not, Option, none, some, List, [],
  ◌∷◌, ◌++◌, arith, if◌then◌else◌, any, is_some, inl, inr, Bool-cases,
}
use musdash.Prelude.Code.{Text, text_eq, text_eq_iff}
use musdash.Env.File.{Vars, put}
use musdash.Env.Interpolate.{own_value}
use musdash.Compose.Environment.{
  Reference, is_reserved_env, includes_name, add_name, insert_name, sort_names, InterpolationEnv,
  add_reference, add_references, interpolation_env,
}

own_value-put :
    (j k v : Text) (vars : Vars)
    → own_value j (put k v vars) ≡ (if text_eq j k then some v else own_value j vars)
unfolding own_value put
own_value-put j k v [] = refl
own_value-put j k v ((i, w) ∷ vars) =
    ground (arith, text_eq_iff j k, text_eq_iff k i, text_eq_iff j i, own_value-put j k v vars)

or_false : (b : Bool) → (b || false) ≡ b
or_false true = refl
or_false false = refl

includes_name-append :
    (n m : Text) (names : List Text)
    → includes_name n (names ++ (m ∷ [])) ≡ (includes_name n names || text_eq n m)
includes_name-append n m [] = ground arith
includes_name-append n m (x ∷ names) = ground (arith, includes_name-append n m names)

or_included :
    (n m : Text) (names : List Text)
    → includes_name m names ≡ true
    → (includes_name n names || text_eq n m) ≡ includes_name n names
or_included n m names e = elim (Bool-cases (text_eq n m)) [
  | inl h ↦
      let found : includes_name n names ≡ true =
        subst (λ x. includes_name x names ≡ true) (sym ((text_eq_iff n m).0 h)) e in
      rw (h, found) refl
  | inr h ↦ rw h (or_false (includes_name n names))
]

includes_name-add_name :
    (n m : Text) (names : List Text)
    → includes_name n (add_name m names) ≡ (includes_name n names || text_eq n m)
unfolding add_name
includes_name-add_name n m names = elim (Bool-cases (includes_name m names)) [
  | inl e ↦ rw e (sym (or_included n m names e))
  | inr e ↦ rw e (includes_name-append n m names)
]

includes_name-insert_name :
    (n m : Text) (names : List Text)
    → includes_name n (insert_name m names) ≡ (text_eq n m || includes_name n names)
unfolding insert_name
includes_name-insert_name n m [] = refl
includes_name-insert_name n m (x ∷ names) = ground (arith, includes_name-insert_name n m names)

includes_name-sort_names :
    (n : Text) (names : List Text) → includes_name n (sort_names names) ≡ includes_name n names
unfolding sort_names
includes_name-sort_names n [] = refl
includes_name-sort_names n (m ∷ names) =
    includes_name-insert_name n m (sort_names names)
    ∙ ap (λ b. text_eq n m || b) (includes_name-sort_names n names)

-- A name is added to a list unless its reference has a default.
unless_default :
    (n m : Text) (d b : Bool) (names : List Text)
    → b ≡ true
    → includes_name n (if d then names else add_name m names)
      ≡ (includes_name n names || (text_eq n m && (not d && b)))
unless_default n m true b names e = ground arith
unless_default n m false b names e = includes_name-add_name n m names ∙ ground arith

later_or_now :
    (now later : Bool) (x y : Option Text)
    → (if later then x else (if now then x else y)) ≡ (if now || later then x else y)
later_or_now true true x y = refl
later_or_now true false x y = refl
later_or_now false true x y = refl
later_or_now false false x y = refl

module _ (resolved : Vars) where
  -- The variable is set.
  abbrev pub is_set : Text → Bool
  is_set n = is_some (own_value n resolved)

  abbrev pub is_passed : Reference → Bool
  is_passed r = is_set r.name && not (is_reserved_env r.name)

  abbrev pub is_withheld : Reference → Bool
  is_withheld r = is_set r.name && is_reserved_env r.name

  abbrev pub is_blank : Reference → Bool
  is_blank r = not r.has_default && (not (is_set r.name) || is_reserved_env r.name)

  -- Some reference to the name passes the test.
  abbrev pub some_reference : (Reference → Bool) → Text → List Reference → Bool
  some_reference f n refs = any (λ r. text_eq n r.name && f r) refs

  passed_value :
      (n name v : Text) (old : Option Text)
      → own_value name resolved ≡ some v
      → (if text_eq n name then some v else old)
        ≡ (if text_eq n name && true then own_value n resolved else old)
  passed_value n name v old e = elim (Bool-cases (text_eq n name)) [
    | inl h ↦ rw h (sym (ap (λ x. own_value x resolved) ((text_eq_iff n name).0 h) ∙ e))
    | inr h ↦ rw h refl
  ]

  env-add_reference :
      (n : Text) (r : Reference) (o : Option Text) (st : InterpolationEnv)
      → own_value r.name resolved ≡ o
      → own_value n (add_reference r o st).env
        ≡ (if text_eq n r.name && is_passed r then own_value n resolved else own_value n st.env)
  unfolding add_reference
  env-add_reference n r none st e = rw e (ground arith)
  env-add_reference n r (some v) st e = elim (Bool-cases (is_reserved_env r.name)) [
    | inl h ↦ rw (e, h) (ground arith)
    | inr h ↦
        rw (e, h) (own_value-put n r.name v st.env ∙ passed_value n r.name v (own_value n st.env) e)
  ]

  missing-add_reference :
      (n : Text) (r : Reference) (o : Option Text) (st : InterpolationEnv)
      → own_value r.name resolved ≡ o
      → includes_name n (add_reference r o st).missing
        ≡ (includes_name n st.missing || (text_eq n r.name && is_blank r))
  unfolding add_reference
  missing-add_reference n r none st e =
      rw e (unless_default n r.name r.has_default true st.missing refl)
  missing-add_reference n r (some v) st e = elim (Bool-cases (is_reserved_env r.name)) [
    | inl h ↦ rw (e, h) (unless_default n r.name r.has_default true st.missing refl)
    | inr h ↦ rw (e, h) (ground arith)
  ]

  dropped-add_reference :
      (n : Text) (r : Reference) (o : Option Text) (st : InterpolationEnv)
      → own_value r.name resolved ≡ o
      → includes_name n (add_reference r o st).dropped
        ≡ (includes_name n st.dropped || (text_eq n r.name && is_withheld r))
  unfolding add_reference
  dropped-add_reference n r none st e = rw e (ground arith)
  dropped-add_reference n r (some v) st e = elim (Bool-cases (is_reserved_env r.name)) [
    | inl h ↦ rw (e, h) (includes_name-add_name n r.name st.dropped ∙ ground arith)
    | inr h ↦ rw (e, h) (ground arith)
  ]

  env-add_references :
      (n : Text) (refs : List Reference) (st : InterpolationEnv)
      → own_value n (add_references resolved refs st).env
        ≡ (if some_reference is_passed n refs then own_value n resolved else own_value n st.env)
  unfolding add_references
  env-add_references n [] st = refl
  env-add_references n (r ∷ refs) st =
      let next = add_reference r (own_value r.name resolved) st in
      env-add_references n refs next
      ∙ rw (env-add_reference n r (own_value r.name resolved) st refl) (
          later_or_now (text_eq n r.name && is_passed r) (some_reference is_passed n refs)
            (own_value n resolved) (own_value n st.env))

  missing-add_references :
      (n : Text) (refs : List Reference) (st : InterpolationEnv)
      → includes_name n (add_references resolved refs st).missing
        ≡ (includes_name n st.missing || some_reference is_blank n refs)
  unfolding add_references
  missing-add_references n [] st = sym (or_false (includes_name n st.missing))
  missing-add_references n (r ∷ refs) st =
      let next = add_reference r (own_value r.name resolved) st in
      missing-add_references n refs next
      ∙ rw (missing-add_reference n r (own_value r.name resolved) st refl) (ground arith)

  dropped-add_references :
      (n : Text) (refs : List Reference) (st : InterpolationEnv)
      → includes_name n (add_references resolved refs st).dropped
        ≡ (includes_name n st.dropped || some_reference is_withheld n refs)
  unfolding add_references
  dropped-add_references n [] st = sym (or_false (includes_name n st.dropped))
  dropped-add_references n (r ∷ refs) st =
      let next = add_reference r (own_value r.name resolved) st in
      dropped-add_references n refs next
      ∙ rw (dropped-add_reference n r (own_value r.name resolved) st refl) (ground arith)

  -- Name by name, for any variables and references: a name is passed to Compose with its value exactly
  -- when a reference to it is set and not reserved, and no other name is; it is reported missing
  -- exactly when a reference to it has no default and its variable is not set or is reserved; it is
  -- withheld exactly when a reference to it is set and reserved.
  pub interpolation_env_contents :
      (refs : List Reference) (n : Text)
      → (own_value n (interpolation_env resolved refs).env
          ≡ (if some_reference is_passed n refs then own_value n resolved else none))
        × (includes_name n (interpolation_env resolved refs).missing
            ≡ some_reference is_blank n refs)
        × (includes_name n (interpolation_env resolved refs).dropped
            ≡ some_reference is_withheld n refs)
  unfolding interpolation_env own_value
  interpolation_env_contents refs n =
      let start : InterpolationEnv = record { env = []; missing = []; dropped = [] } in
      (
        env-add_references n refs start,
        includes_name-sort_names n _ ∙ missing-add_references n refs start,
        includes_name-sort_names n _ ∙ dropped-add_references n refs start,
      )
