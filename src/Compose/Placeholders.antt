-- ===== src/Compose/Placeholders.antt =====
-- Template placeholders (src/compose/placeholders.ts). The random source is the sequence of the
-- buffers that it fills; each is a list of bytes.
pub mod Uniform
pub mod Draws
pub mod Routes
use musdash.Prelude.{
  ℕ, suc, zero, ◌+◌, ◌-◌, ◌*◌, ◌%◌, Bool, true, false, ◌&&◌, ◌||◌, not, Option, none, some, List,
  [], ◌∷◌, ◌++◌, if◌then◌else◌, ◌==◌, ltb, leb, length, all, map, map_option, is_some, get_elem?,
  drop,
}
use musdash.Prelude.Code.{Text, codes, text_eq}
use musdash.Env.Chars.{has_prefix}

pub data PlaceholderKind : Type 0 where
  password : PlaceholderKind
  user : PlaceholderKind
  base64 : PlaceholderKind
  fqdn : PlaceholderKind
  url : PlaceholderKind

pub record Placeholder : Type 0 where
  pub name : Text
  pub kind : PlaceholderKind
  pub service : Option Text
  pub port : Option ℕ

abbrev pub is_upper : ℕ → Bool
is_upper c = leb 65 c && leb c 90

abbrev pub is_digit : ℕ → Bool
is_digit c = leb 48 c && leb c 57

-- `[A-Z0-9]`, and with `_`.
abbrev pub is_end_char : ℕ → Bool
is_end_char c = is_upper c || is_digit c

abbrev pub is_env_char : ℕ → Bool
is_env_char c = is_end_char c || (c == 95)

abbrev last_ok : Text → Bool
last_ok [] = false
last_ok (c ∷ []) = is_end_char c
last_ok (c ∷ d ∷ s) = last_ok (d ∷ s)

-- `[A-Z0-9](?:[A-Z0-9_]*[A-Z0-9])?`
unfoldable pub is_route_rest : Text → Bool
is_route_rest [] = false
is_route_rest (c ∷ s) = is_end_char c && last_ok (c ∷ s) && all is_env_char s

-- serviceName: toLowerCase and replaceAll("_", "-"), on a text of the characters of ROUTE_RE.
abbrev service_char : ℕ → ℕ
service_char c = if is_upper c then c + 32 else if c == 95 then 45 else c

unfoldable pub service_name : Text → Text
service_name upper = map service_char upper

-- PORT_SUFFIX: the last `_` that is followed by digits to the end, with something before it. The
-- first group is greedy, and a `_` is no digit, so that is the last `_`.
unfoldable pub at_underscore : ℕ → Text → Option (Text × Text)
at_underscore c (d ∷ e ∷ s) =
    if (d == 95) && all is_digit (e ∷ s) then some (c ∷ [], e ∷ s) else none
at_underscore c _ = none

unfoldable pub port_suffix : Text → Option (Text × Text)
unfolding at_underscore
port_suffix [] = none
port_suffix (c ∷ s) =
    let rest = port_suffix s in
    if is_some rest then map_option (λ p. (c ∷ p.0, p.1)) rest else at_underscore c s

-- The text after a prefix.
unfoldable pub strip : Text → Text → Option Text
strip [] s = some s
strip (c ∷ p) [] = none
strip (c ∷ p) (d ∷ s) = if d == c then strip p s else none

abbrev is_secret_rest : Option Text → Bool
is_secret_rest none = false
is_secret_rest (some []) = false
is_secret_rest (some (c ∷ s)) = all is_env_char (c ∷ s)

-- SECRET_RE and SECRET_KINDS.
unfoldable pub secret_kind : Text → Option PlaceholderKind
unfolding strip
secret_kind name =
    if is_secret_rest (strip (codes "SERVICE_PASSWORD_") name)
    then some password
    else if is_secret_rest (strip (codes "SERVICE_USER_") name)
    then some user
    else if is_secret_rest (strip (codes "SERVICE_BASE64_") name)
    then some base64
    else none

-- Number of a text of digits.
abbrev number_from : ℕ → Text → ℕ
number_from n [] = n
number_from n (c ∷ s) = number_from (n * 10 + (c - 48)) s

abbrev pub number : Text → ℕ
number s = number_from 0 s

-- `^[1-9]\d{0,4}$` and at most 65535.
unfoldable pub port_of_digits : Text → Option ℕ
port_of_digits [] = none
port_of_digits (c ∷ s) =
    if leb 49 c && leb c 57 && all is_digit s && leb (length s) 4 && leb (number (c ∷ s)) 65535
    then some (number (c ∷ s))
    else none

unfoldable pub with_port : Text → PlaceholderKind → Text → Option ℕ → Option Placeholder
unfolding service_name
with_port name kind svc none = none
with_port name kind svc (some port) =
    some (record { name = name; kind = kind; service = some (service_name svc); port = some port })

unfoldable pub route_placeholder :
    Text → PlaceholderKind → Text → Option (Text × Text) → Option Placeholder
unfolding with_port port_of_digits
route_placeholder name kind rest none =
    some (record { name = name; kind = kind; service = some (service_name rest); port = none })
route_placeholder name kind rest (some (svc, digits)) =
    with_port name kind svc (port_of_digits digits)

unfoldable pub as_route : Text → PlaceholderKind → Option Text → Option Placeholder
unfolding route_placeholder is_route_rest port_suffix
as_route name kind none = none
as_route name kind (some rest) =
    if is_route_rest rest then route_placeholder name kind rest (port_suffix rest) else none

-- ROUTE_RE: the two prefixes exclude one another.
unfoldable pub parse_route : Text → Option Placeholder
unfolding as_route
parse_route name =
    let fqdn_rest = strip (codes "SERVICE_FQDN_") name in
    if is_some fqdn_rest
    then as_route name fqdn fqdn_rest
    else as_route name url (strip (codes "SERVICE_URL_") name)

unfoldable pub of_secret : Text → Option PlaceholderKind → Option Placeholder
unfolding parse_route
of_secret name none = parse_route name
of_secret name (some kind) = some (record { name = name; kind = kind; service = none; port = none })

unfoldable pub parse_placeholder : Text → Option Placeholder
unfolding of_secret secret_kind
parse_placeholder name = of_secret name (secret_kind name)

abbrev pub alnum : Text
alnum = codes "ABCDEFGHIJKLMNOPQRSTUVWXYZabcdefghijklmnopqrstuvwxyz0123456789"

abbrev pub lower : Text
lower = codes "abcdefghijklmnopqrstuvwxyz"

abbrev pub max_refills : ℕ
max_refills = 64

-- The bytes of a buffer are all used up, or the value is complete.
pub data Drawing : Type 0 where
  complete : Text → Drawing
  partial : Text → Drawing

module _ (alphabet : Text) (size : ℕ) where
  abbrev pub limit : ℕ
  limit = 256 - 256 % length alphabet

  abbrev one_char : Option ℕ → Text
  one_char none = []
  one_char (some c) = c ∷ []

  -- What a byte adds: nothing when it is skipped.
  unfoldable pub picked : ℕ → Text
  picked byte =
      if ltb byte limit then one_char (get_elem? alphabet (byte % length alphabet)) else []

  -- The loop over the bytes of a buffer.
  unfoldable pub use_bytes : List ℕ → Text → Drawing
  unfolding picked
  use_bytes [] out = partial out
  use_bytes (byte ∷ bytes) out =
      let longer = out ++ picked byte in
      if ltb byte limit && (length longer == size) then complete longer else use_bytes bytes longer

  -- The loop over the refills; the random source fills its i-th buffer with `rng i`.
  unfoldable pub draw_from : (ℕ → List ℕ) → ℕ → ℕ → Text → Option Text
  unfolding use_bytes
  draw_from rng zero i out = none
  draw_from rng (suc left) i out = elim (use_bytes (rng i) out) [
    | complete value ↦ some value
    | partial longer ↦ draw_from rng left (i + 1) longer
  ]

  unfoldable pub draw : (ℕ → List ℕ) → Option Text
  unfolding draw_from
  draw rng = draw_from rng max_refills 0 []

-- generateSecret; a value in base64 is the encoding of one buffer, and the encoder a parameter.
unfoldable pub generate_secret : (List ℕ → Text) → PlaceholderKind → (ℕ → List ℕ) → Option Text
unfolding draw
generate_secret encode password rng = draw alnum 32 rng
generate_secret encode user rng = draw lower 16 rng
generate_secret encode _ rng = some (encode (rng 0))
