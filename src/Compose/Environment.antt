-- ===== src/Compose/Environment.antt =====
-- The environment that a Compose file is interpolated with (src/compose/env.ts): interpolationEnv.
-- The names of references are identifiers, so `.` of RESERVED_ENV matches all of their characters.
pub mod Contents
use musdash.Prelude.{
  ℕ, ◌+◌, Bool, true, false, ◌&&◌, ◌||◌, not, String, Option, none, some, List, [], ◌∷◌, ◌++◌,
  if◌then◌else◌, ◌==◌, any, is_some,
}
use musdash.Prelude.Code.{Text, codes, text_eq, before}
use musdash.Env.Chars.{has_prefix}
use musdash.Env.File.{Vars, put}
use musdash.Env.Interpolate.{own_value}

pub record Reference : Type 0 where
  pub name : Text
  pub has_default : Bool

abbrev reserved_names : List String
reserved_names =
    "PATH" ∷ "HOME" ∷ "TMPDIR" ∷ "GODEBUG" ∷ "GOTRACEBACK" ∷ "GOMAXPROCS" ∷ "GOFLAGS"
    ∷ "SSL_CERT_FILE" ∷ "SSL_CERT_DIR" ∷ []

abbrev reserved_prefixes : List String
reserved_prefixes = "COMPOSE_" ∷ "DOCKER_" ∷ "BUILDKIT_" ∷ "LD_" ∷ "XDG_" ∷ []

-- A capital letter, in either case.
abbrev either_case : ℕ → ℕ → Bool
either_case upper c = (c == upper) || (c == upper + 32)

-- `_[Pp][Rr][Oo][Xx][Yy]` at the end.
unfoldable pub is_proxy_name : Text → Bool
is_proxy_name [] = false
is_proxy_name (c ∷ s) = is_suffix (c ∷ s) || is_proxy_name s
  where
    is_suffix : Text → Bool
    is_suffix (u ∷ p ∷ r ∷ o ∷ x ∷ y ∷ []) =
        (u == 95)
        && either_case 80 p
        && either_case 82 r
        && either_case 79 o
        && either_case 88 x
        && either_case 89 y
    is_suffix s = false

-- RESERVED_ENV.
unfoldable pub is_reserved_env : Text → Bool
unfolding is_proxy_name
is_reserved_env name =
    any (λ n. text_eq name (codes n)) reserved_names
    || any (λ p. has_prefix (codes p) name) reserved_prefixes
    || is_proxy_name name

abbrev pub includes_name : Text → List Text → Bool
includes_name n names = any (λ m. text_eq n m) names

-- Set.add
unfoldable pub add_name : Text → List Text → List Text
add_name n names = if includes_name n names then names else names ++ (n ∷ [])

-- By code units.
unfoldable pub insert_name : Text → List Text → List Text
insert_name n [] = n ∷ []
insert_name n (m ∷ names) =
    let rest = insert_name n names in if before n m then n ∷ m ∷ names else m ∷ rest

-- [...names].sort(byCodeUnit)
unfoldable pub sort_names : List Text → List Text
unfolding insert_name
sort_names [] = []
sort_names (n ∷ names) = insert_name n (sort_names names)

pub record InterpolationEnv : Type 0 where
  pub env : Vars
  pub missing : List Text
  pub dropped : List Text

-- One reference; `value` is its variable's.
unfoldable pub add_reference : Reference → Option Text → InterpolationEnv → InterpolationEnv
unfolding is_reserved_env add_name
add_reference ref none st = record st {
  missing = if ref.has_default then st.missing else add_name ref.name st.missing;
}
add_reference ref (some value) st =
    if is_reserved_env ref.name
    then record st {
      dropped = add_name ref.name st.dropped;
      missing = if ref.has_default then st.missing else add_name ref.name st.missing;
    }
    else record st { env = put ref.name value st.env }

unfoldable pub add_references : Vars → List Reference → InterpolationEnv → InterpolationEnv
unfolding add_reference
add_references resolved [] st = st
add_references resolved (ref ∷ refs) st =
    add_references resolved refs (add_reference ref (own_value ref.name resolved) st)

-- Object.fromEntries keeps the last of the entries for a name, as `put` does.
unfoldable pub interpolation_env : Vars → List Reference → InterpolationEnv
unfolding add_references sort_names
interpolation_env resolved references =
    let st = add_references resolved references (record { env = []; missing = []; dropped = [] }) in
    record st { missing = sort_names st.missing; dropped = sort_names st.dropped }
