-- ===== src/Compose/NameTests.antt =====
-- Tests of the placeholders and of the environment of a Compose file (src/compose/placeholders.ts,
-- src/compose/env.ts).
use musdash.Prelude.{
  ℕ, ◌/◌, ◌*◌, ◌≡◌, true, false, none, List, [], ◌∷◌, arith, if◌then◌else◌, ◌==◌, length,
}
use musdash.Prelude.Code.{codes}
use musdash.Env.File.{Vars}
use musdash.Env.Interpolate.{own_value}
use musdash.Compose.Placeholders.{alnum, lower, draw}
use musdash.Compose.Placeholders.Draws.{usable, filled, first_of, draw-first_of}
use musdash.Compose.Placeholders.Uniform.{count_below, count_chars, adds, use_bytes_is_uniform}
use musdash.Compose.Environment.{Reference, interpolation_env, includes_name}
use musdash.Compose.Environment.Contents.{
  is_passed, is_blank, is_withheld, some_reference, interpolation_env_contents,
}

-- Every second byte is skipped.
abbrev half_usable : ℕ → List ℕ
half_usable i = 255 ∷ i ∷ 254 ∷ 26 ∷ []

draw-first_of_example :
    draw lower 16 half_usable
    ≡ first_of lower 16 (usable lower 16 (filled lower 16 half_usable 64 0))
draw-first_of_example = draw-first_of lower 16 half_usable (omega arith)

use_bytes_is_uniform_example :
    count_below (adds alnum 32 (λ c. c == b'9') (codes "ab")) 256
    ≡ 256 / length alnum * count_chars (λ c. c == b'9') alnum
use_bytes_is_uniform_example = use_bytes_is_uniform alnum 32 (λ c. c == b'9') (codes "ab")

abbrev resolved : Vars
resolved = (codes "TOKEN", codes "t") ∷ (codes "LD_PRELOAD", codes "/x.so") ∷ []

abbrev references : List Reference
references =
    record { name = codes "TOKEN"; has_default = false }
    ∷ record { name = codes "LD_PRELOAD"; has_default = true }
    ∷ record { name = codes "PORT"; has_default = false }
    ∷ []

interpolation_env_contents_example :
    (own_value (codes "TOKEN") (interpolation_env resolved references).env ≡ (
      if some_reference resolved (is_passed resolved) (codes "TOKEN") references
      then own_value (codes "TOKEN") resolved
      else none))
    × (includes_name (codes "TOKEN") (interpolation_env resolved references).missing
        ≡ some_reference resolved (is_blank resolved) (codes "TOKEN") references)
    × (includes_name (codes "TOKEN") (interpolation_env resolved references).dropped
        ≡ some_reference resolved (is_withheld resolved) (codes "TOKEN") references)
interpolation_env_contents_example = interpolation_env_contents resolved references (codes "TOKEN")
