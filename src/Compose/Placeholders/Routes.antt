-- ===== src/Compose/Placeholders/Routes.antt =====
-- Which service and port a route placeholder names (src/compose/placeholders.ts).
use musdash.Prelude.{ℕ, ◌≡◌, refl, ◌∙◌, true, none, some, [], ◌∷◌, ◌++◌, arith, all}
use mathlib.Core.Bool.{false≢true}
use musdash.Prelude.Code.{Text, codes}
use musdash.Compose.Placeholders.{
  PlaceholderKind, url, fqdn, is_env_char, is_digit, last_ok, is_route_rest, port_suffix,
  at_underscore, strip, secret_kind, port_of_digits, with_port, route_placeholder, as_route,
  parse_route, of_secret, parse_placeholder,
}

digits-env_char : (ds : Text) → all is_digit ds ≡ true → all is_env_char ds ≡ true
digits-env_char [] h = refl
digits-env_char (d ∷ ds) h = ground (arith, digits-env_char ds)

env_char-append :
    (s ds : Text)
    → all is_env_char s ≡ true
    → all is_digit ds ≡ true
    → all is_env_char (s ++ (95 ∷ ds)) ≡ true
env_char-append [] ds hs hd = digits-env_char ds hd
env_char-append (c ∷ s) ds hs hd = ground (arith, env_char-append s ds)

last_ok-digits : (d : ℕ) (ds : Text) → all is_digit (d ∷ ds) ≡ true → last_ok (d ∷ ds) ≡ true
last_ok-digits d [] h = ground arith
last_ok-digits d (e ∷ ds) h = last_ok-digits e ds (ground arith)

last_ok-append :
    (c : ℕ) (s : Text) (d : ℕ) (ds : Text)
    → all is_digit (d ∷ ds) ≡ true
    → last_ok (c ∷ (s ++ (95 ∷ d ∷ ds))) ≡ true
last_ok-append c [] d ds h = last_ok-digits d ds h
last_ok-append c (e ∷ s) d ds h = last_ok-append e s d ds h

is_route_rest-append :
    (s : Text) (d : ℕ) (ds : Text)
    → is_route_rest s ≡ true
    → all is_digit (d ∷ ds) ≡ true
    → is_route_rest (s ++ (95 ∷ d ∷ ds)) ≡ true
unfolding is_route_rest
is_route_rest-append [] d ds hs hd = absurd (false≢true hs)
is_route_rest-append (c ∷ s) d ds hs hd =
    rw (last_ok-append c s d ds hd, env_char-append s (d ∷ ds) (ground (arith, hs)) hd)
      (ground (arith, hs))

port_suffix-keeps :
    (c : ℕ) (t : Text) (p : Text × Text)
    → port_suffix t ≡ some p
    → port_suffix (c ∷ t) ≡ some (c ∷ p.0, p.1)
unfolding port_suffix
port_suffix-keeps c t p e = rw e refl

port_suffix-starts :
    (c : ℕ) (t : Text) → port_suffix t ≡ none → port_suffix (c ∷ t) ≡ at_underscore c t
unfolding port_suffix
port_suffix-starts c t e = rw e refl

at_underscore-digits : (c : ℕ) (ds : Text) → all is_digit ds ≡ true → at_underscore c ds ≡ none
unfolding at_underscore
at_underscore-digits c [] h = refl
at_underscore-digits c (d ∷ []) h = refl
at_underscore-digits c (d ∷ e ∷ ds) h = ground arith

-- Digits have no port of their own.
port_suffix-digits : (ds : Text) → all is_digit ds ≡ true → port_suffix ds ≡ none
unfolding port_suffix
port_suffix-digits [] h = refl
port_suffix-digits (d ∷ ds) h =
    port_suffix-starts d ds (port_suffix-digits ds (ground arith))
    ∙ at_underscore-digits d ds (ground arith)

port_suffix-append :
    (c : ℕ) (s : Text) (d : ℕ) (ds : Text)
    → all is_digit (d ∷ ds) ≡ true
    → port_suffix (c ∷ (s ++ (95 ∷ d ∷ ds))) ≡ some (c ∷ s, d ∷ ds)
unfolding at_underscore
port_suffix-append c [] d ds h =
    port_suffix-starts c (95 ∷ d ∷ ds) (
      port_suffix-starts 95 (d ∷ ds) (port_suffix-digits (d ∷ ds) h)
      ∙ at_underscore-digits 95 (d ∷ ds) h)
    ∙ rw h refl
port_suffix-append c (e ∷ s) d ds h =
    port_suffix-keeps c (e ∷ (s ++ (95 ∷ d ∷ ds))) (e ∷ s, d ∷ ds) (port_suffix-append e s d ds h)

as_route-append :
    (name : Text) (kind : PlaceholderKind) (s : Text) (d : ℕ) (ds : Text)
    → is_route_rest s ≡ true
    → all is_digit (d ∷ ds) ≡ true
    → as_route name kind (some (s ++ (95 ∷ d ∷ ds)))
      ≡ with_port name kind s (port_of_digits (d ∷ ds))
unfolding as_route route_placeholder is_route_rest
as_route-append name kind [] d ds hs hd = absurd (false≢true hs)
as_route-append name kind (c ∷ s) d ds hs hd =
    rw (is_route_rest-append (c ∷ s) d ds hs hd, port_suffix-append c s d ds hd) refl

-- A name that is a route prefix, a service, an underscore and digits is a placeholder for that
-- service with the port that the digits write, and no placeholder at all when they write none: a
-- trailing number is always read as the port. The service starts and ends with a letter or a digit
-- and has only those and underscores.
pub parse_placeholder-route :
    (s : Text) (d : ℕ) (ds : Text)
    → is_route_rest s ≡ true
    → all is_digit (d ∷ ds) ≡ true
    → let rest = s ++ (95 ∷ d ∷ ds) in
      (parse_placeholder (codes "SERVICE_FQDN_" ++ rest)
        ≡ with_port (codes "SERVICE_FQDN_" ++ rest) fqdn s (port_of_digits (d ∷ ds)))
      × (parse_placeholder (codes "SERVICE_URL_" ++ rest)
          ≡ with_port (codes "SERVICE_URL_" ++ rest) url s (port_of_digits (d ∷ ds)))
unfolding parse_placeholder of_secret secret_kind parse_route strip
parse_placeholder-route s d ds hs hd =
    let rest = s ++ (95 ∷ d ∷ ds) in
    (
      as_route-append (codes "SERVICE_FQDN_" ++ rest) fqdn s d ds hs hd,
      as_route-append (codes "SERVICE_URL_" ++ rest) url s d ds hs hd,
    )
