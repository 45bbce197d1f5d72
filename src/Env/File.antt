-- ===== src/Env/File.antt =====
-- parseEnvText and formatEnvText (src/env/parse.ts). The object of variables is its list of entries;
-- a name that every JavaScript object inherits is `in` it from the start, and assigning `__proto__`
-- a text does nothing. The names that are valid keys are no array indices, so entries keep the order
-- of insertion.
use musdash.Prelude.{
  ℕ, ◌+◌, String, Bool, true, ◌||◌, Option, none, some, List, [], ◌∷◌, ◌++◌, map, if◌then◌else◌,
  any, drop,
}
use musdash.Prelude.Code.{Text, codes, text_eq}
use musdash.Env.Chars.{trim, is_name, lines_of, join_lines, split_at, has_prefix, starts_with_code}
use musdash.Env.Values.{parse_value, format_value}

abbrev pub Vars : Type 0
Vars = List (Text × Text)

abbrev object_names : List String
object_names =
    "constructor" ∷ "__defineGetter__" ∷ "__defineSetter__" ∷ "hasOwnProperty" ∷ "__lookupGetter__"
    ∷ "__lookupSetter__" ∷ "isPrototypeOf" ∷ "propertyIsEnumerable" ∷ "toString" ∷ "valueOf"
    ∷ "__proto__" ∷ "toLocaleString" ∷ []

-- The key is a name of Object.prototype.
unfoldable pub is_inherited : Text → Bool
is_inherited key = any (λ name. text_eq key (codes name)) object_names

unfoldable pub has_own : Text → Vars → Bool
has_own key vars = any (λ e. text_eq key e.0) vars

unfoldable pub put : Text → Text → Vars → Vars
put key value [] = (key, value) ∷ []
put key value ((k, v) ∷ vars) =
    if text_eq key k then (k, value) ∷ vars else (k, v) ∷ put key value vars

-- vars[key] = value
unfoldable pub assign : Text → Text → Vars → Vars
unfolding put
assign key value vars = if text_eq key (codes "__proto__") then vars else put key value vars

pub data EnvError : Type 0 where
  no_equals : (line : ℕ) (text : Text) → EnvError
  invalid_name : (line : ℕ) (key : Text) → EnvError
  repeated_name : (line : ℕ) (key : Text) → EnvError

pub record ParsedEnv : Type 0 where
  pub vars : Vars
  pub errors : List EnvError

-- The body of the loop from `const value` on.
unfoldable pub add_variable : ℕ → Text → Text → ParsedEnv → ParsedEnv
unfolding assign has_own is_inherited
add_variable line key value st = record {
  vars = assign key value st.vars;
  errors =
      if has_own key st.vars || is_inherited key
      then st.errors ++ (repeated_name line key ∷ [])
      else st.errors;
}

-- The line without `export`, split at its first `=`.
unfoldable pub parse_pair : ℕ → Text → Option (Text × Text) → ParsedEnv → ParsedEnv
unfolding add_variable
parse_pair line text none st = record st { errors = st.errors ++ (no_equals line text ∷ []) }
parse_pair line text (some (before, after)) st =
    let key = trim before in
    if is_name key
    then add_variable line key (parse_value after) st
    else record st { errors = st.errors ++ (invalid_name line key ∷ []) }

unfoldable pub without_export : Text → Text
without_export line = if has_prefix (codes "export ") line then trim (drop 7 line) else line

abbrev pub is_skipped : Text → Bool
is_skipped [] = true
is_skipped (c ∷ s) = starts_with_code 35 (c ∷ s)

unfoldable pub parse_line : ℕ → Text → ParsedEnv → ParsedEnv
unfolding parse_pair without_export
parse_line number raw st =
    let line = trim raw in
    if is_skipped line then st else parse_pair number line (split_at 61 (without_export line)) st

unfoldable pub parse_lines : ℕ → List Text → ParsedEnv → ParsedEnv
unfolding parse_line
parse_lines number [] st = st
parse_lines number (l ∷ ls) st = parse_lines (number + 1) ls (parse_line number l st)

unfoldable pub parse_env_text : Text → ParsedEnv
unfolding parse_lines
parse_env_text text = parse_lines 1 (lines_of text) (record { vars = []; errors = [] })

unfoldable pub format_pair : (Text × Text) → Text
format_pair (k, v) = k ++ (61 ∷ format_value v)

unfoldable pub format_env_text : Vars → Text
unfolding format_pair
format_env_text vars = join_lines (map format_pair vars)
