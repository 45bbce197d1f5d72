-- ===== src/Env/Interpolate.antt =====
-- interpolate (src/env/interpolate.ts). What `vars[name]` reads when the object has no such entry but
-- inherits the name, and what that prints as, belongs to the JavaScript engine: a parameter.
pub mod Templates
use musdash.Prelude.{
  ℕ, suc, zero, ◌+◌, Bool, Option, none, some, List, [], ◌∷◌, ◌++◌, if◌then◌else◌, ◌==◌, length,
  map_option,
}
use musdash.Prelude.Code.{Text, text_eq}
use musdash.Env.Chars.{is_name_char, is_name}
use musdash.Env.File.{Vars, assign}

-- What interpolate returns, and the two errors that it throws.
pub data Interpolated {ℓ} (A : Type ℓ) : Type ℓ where
  expanded : A → Interpolated A
  self_reference : (key : Text) → Interpolated A
  undefined_name : (key missing : Text) → Interpolated A

abbrev pub then_do {ℓ κ} :
    {A : Type ℓ} {B : Type κ} → Interpolated A → (A → Interpolated B) → Interpolated B
then_do (expanded a) f = f a
then_do (self_reference k) f = self_reference k
then_do (undefined_name k m) f = undefined_name k m

-- Text put before what the rest of a value expands to.
abbrev pub prepend : Text → Interpolated Text → Interpolated Text
prepend s r = then_do r (λ t. expanded (s ++ t))

-- The name up to the brace that closes a reference.
unfoldable pub name_until_brace : Text → Option Text
name_until_brace [] = none
name_until_brace (c ∷ s) =
    let rest = name_until_brace s in
    if c == 125 then some [] else if is_name_char c then map_option (λ n. c ∷ n) rest else none

unfoldable pub valid_name : Option Text → Option Text
valid_name none = none
valid_name (some n) = if is_name n then some n else none

pub data Match : Type 0 where
  escape : Match
  reference : (name : Text) → Match
  no_match : Match

abbrev reference_match : Option Text → Match
reference_match none = no_match
reference_match (some n) = reference n

-- What REF_RE matches at a dollar sign, given the text after it.
unfoldable pub match_after_dollar : Text → Match
unfolding name_until_brace valid_name
match_after_dollar [] = no_match
match_after_dollar (c ∷ s) =
    if c == 36
    then escape
    else if c == 123
    then reference_match (valid_name (name_until_brace s))
    else no_match

unfoldable pub match_at : ℕ → Text → Match
unfolding match_after_dollar
match_at c s = if c == 36 then match_after_dollar s else no_match

-- The characters of a match after its first.
abbrev pub match_rest : Match → ℕ
match_rest escape = 1
match_rest (reference n) = length n + 2
match_rest no_match = 0

unfoldable pub own_value : Text → Vars → Option Text
own_value name [] = none
own_value name ((k, v) ∷ vars) = if text_eq name k then some v else own_value name vars

module _ (inherited : Text → Option Text) where
  -- vars[name], as text.
  unfoldable pub lookup : Text → Vars → Option Text
  unfolding own_value
  lookup name vars = elim (own_value name vars) [ none ↦ inherited name | some v ↦ some v ]

  abbrev pub found : Text → Text → Option Text → Interpolated Text
  found key name none = undefined_name key name
  found key name (some v) = expanded v

  -- The replacement of a match, or the character itself where there is none.
  unfoldable pub replacement : Text → Vars → ℕ → Match → Interpolated Text
  unfolding lookup
  replacement key vars c escape = expanded (36 ∷ [])
  replacement key vars c (reference name) =
      if text_eq name key then self_reference key else found key name (lookup name vars)
  replacement key vars c no_match = expanded (c ∷ [])

  -- raw.replace(REF_RE, ...), of which `skip` characters more belong to the last match.
  unfoldable pub expand_from : Text → Vars → ℕ → Text → Interpolated Text
  unfolding replacement match_at
  expand_from key vars skip [] = expanded []
  expand_from key vars (suc skip) (c ∷ s) = expand_from key vars skip s
  expand_from key vars zero (c ∷ s) =
      let rest = expand_from key vars (match_rest (match_at c s)) s in
      then_do (replacement key vars c (match_at c s)) (λ v. prepend v rest)

  unfoldable pub expand : Text → Vars → Text → Interpolated Text
  unfolding expand_from
  expand key vars raw = expand_from key vars 0 raw

  -- The loop over the entries, which reads every value from the input.
  unfoldable pub interpolate_entries : Vars → Vars → Vars → Interpolated Vars
  unfolding expand assign
  interpolate_entries vars out [] = expanded out
  interpolate_entries vars out ((key, raw) ∷ entries) =
      then_do (expand key vars raw)
        (λ value. interpolate_entries vars (assign key value out) entries)

  unfoldable pub interpolate : Vars → Interpolated Vars
  unfolding interpolate_entries
  interpolate vars = interpolate_entries vars [] vars
