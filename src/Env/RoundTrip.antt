-- ===== src/Env/RoundTrip.antt =====
-- The edit view of the Env tab is saved back unchanged (src/env/parse.ts).
use musdash.Prelude.{
  ℕ, ◌+◌, ◌≡◌, refl, ap, ◌∙◌, Bool, true, false, ◌&&◌, ◌||◌, not, some, [], ◌∷◌, ◌++◌, map, arith,
  ◌==◌, inl, inr, Bool-cases, any, all, append_assoc, append-nil,
}
use mathlib.Core.Bool.{false≢true}
use musdash.Prelude.Code.{Text, codes, text_eq}
use musdash.Env.Chars.{
  is_space, is_letter, is_name_char, is_name, trim, trim_start, trim_end, lines_of, join_lines,
  split_at, has_prefix,
}
use musdash.Env.Values.{escaped, escape_double, quotable, needs_quoting, format_value}
use musdash.Env.Quoting.{trim_end-append, trim_end-plain, trim-plain, parse_value-format_value}
use musdash.Env.File.{
  Vars, ParsedEnv, repeated_name, is_inherited, has_own, put, assign, add_variable, parse_pair,
  without_export, is_skipped, parse_line, parse_lines, parse_env_text, format_pair, format_env_text,
}

-- No character of a text ends a line.
abbrev unbroken : Text → Bool
unbroken s = all (λ c. not ((c == 10) || (c == 13))) s

unbroken-append : (s t : Text) → unbroken s ≡ true → unbroken t ≡ true → unbroken (s ++ t) ≡ true
unbroken-append [] t hs ht = ht
unbroken-append (c ∷ s) t hs ht = ground (arith, unbroken-append s t)

unbroken-escaped : (c : ℕ) → unbroken (escaped c) ≡ true
unfolding escaped
unbroken-escaped c = ground arith

unbroken-escape_double : (v : Text) → unbroken (escape_double v) ≡ true
unfolding escape_double
unbroken-escape_double [] = refl
unbroken-escape_double (c ∷ v) =
    unbroken-append (escaped c) (escape_double v) (unbroken-escaped c) (unbroken-escape_double v)

unbroken-plain : (v : Text) → any quotable v ≡ false → unbroken v ≡ true
unfolding quotable is_space
unbroken-plain [] h = refl
unbroken-plain (c ∷ v) h = ground (arith, unbroken-plain v)

unbroken-format_value : (v : Text) → unbroken (format_value v) ≡ true
unfolding format_value needs_quoting
unbroken-format_value v = elim (Bool-cases (any quotable v)) [
  | inl e ↦ rw e (unbroken-append (escape_double v) (34 ∷ []) (unbroken-escape_double v) refl)
  | inr e ↦ rw e (unbroken-plain v e)
]

lines_of-unbroken : (l : Text) → unbroken l ≡ true → lines_of l ≡ l ∷ []
unfolding lines_of
lines_of-unbroken [] h = refl
lines_of-unbroken (c ∷ l) h = rw (lines_of-unbroken l (ground arith)) (ground arith)

lines_of-append : (l s : Text) → unbroken l ≡ true → lines_of (l ++ (10 ∷ s)) ≡ l ∷ lines_of s
unfolding lines_of
lines_of-append [] s h = refl
lines_of-append (c ∷ l) s h = rw (lines_of-append l s (ground arith)) (ground arith)

name_char-not_quotable : (c : ℕ) → is_name_char c ≡ true → quotable c ≡ false
unfolding is_name_char is_letter quotable is_space
name_char-not_quotable c h = ground arith

name-plain : (k : Text) → all is_name_char k ≡ true → any quotable k ≡ false
name-plain [] h = refl
name-plain (c ∷ k) h = ground (arith, name_char-not_quotable c, name-plain k)

split_at-name : (k s : Text) → all is_name_char k ≡ true → split_at 61 (k ++ (61 ∷ s)) ≡ some (k, s)
unfolding split_at is_name_char is_letter
split_at-name [] s h = refl
split_at-name (c ∷ k) s h = rw (split_at-name k s (ground arith)) (ground arith)

has_prefix-name :
    (p k s : Text)
    → all is_name_char p ≡ true
    → all is_name_char k ≡ true
    → has_prefix (p ++ (32 ∷ [])) (k ++ (61 ∷ s)) ≡ false
unfolding has_prefix is_name_char is_letter
has_prefix-name [] [] s hp hk = refl
has_prefix-name [] (d ∷ k) s hp hk = ground arith
has_prefix-name (c ∷ p) [] s hp hk = ground arith
has_prefix-name (c ∷ p) (d ∷ k) s hp hk =
    rw (has_prefix-name p k s (ground arith) (ground arith)) (ground arith)

put-append :
    (k v : Text) (vars : Vars) → has_own k vars ≡ false → put k v vars ≡ vars ++ ((k, v) ∷ [])
unfolding put has_own
put-append k v [] h = refl
put-append k v ((j, w) ∷ vars) h = rw (put-append k v vars (ground arith)) (ground arith)

trim_end-format_value : (v : Text) → trim_end (61 ∷ format_value v) ≡ 61 ∷ format_value v
unfolding format_value needs_quoting trim_end is_space
trim_end-format_value [] = refl
trim_end-format_value (c ∷ v) = elim (Bool-cases (any quotable (c ∷ v))) [
  | inl e ↦ rw e (trim_end-append (61 ∷ 34 ∷ escape_double (c ∷ v)) 34 [] refl)
  | inr e ↦ rw e (trim_end-append (61 ∷ []) c v (trim_end-plain (c ∷ v) e))
]

letter-not_space : (c : ℕ) → is_letter c ≡ true → is_space c ≡ false
unfolding is_letter is_space
letter-not_space c h = ground arith

pub name-is_name_char : (k : Text) → is_name k ≡ true → all is_name_char k ≡ true
unfolding is_name is_name_char
name-is_name_char [] h = refl
name-is_name_char (c ∷ k) h = ground arith

trim-format_pair : (k v : Text) → is_name k ≡ true → trim (format_pair (k, v)) ≡ format_pair (k, v)
unfolding trim trim_start format_pair is_name
trim-format_pair [] v h = absurd (false≢true h)
trim-format_pair (c ∷ k) v h =
    rw (letter-not_space c (ground arith))
      (trim_end-append (c ∷ k) 61 (format_value v) (trim_end-format_value v))

not_skipped : (k v : Text) → is_name k ≡ true → is_skipped (format_pair (k, v)) ≡ false
unfolding format_pair is_name is_letter
not_skipped [] v h = absurd (false≢true h)
not_skipped (c ∷ k) v h = ground arith

not_proto : (k : Text) → is_inherited k ≡ false → text_eq k (codes "__proto__") ≡ false
unfolding is_inherited
not_proto k h = ground arith

no_export :
    (k v : Text)
    → all is_name_char k ≡ true
    → has_prefix (codes "export ") (format_pair (k, v)) ≡ false
unfolding format_pair is_name_char is_letter
no_export k v h = has_prefix-name (codes "export") k (format_value v) refl h

split_pair :
    (k v : Text)
    → all is_name_char k ≡ true
    → split_at 61 (format_pair (k, v)) ≡ some (k, format_value v)
unfolding format_pair
split_pair k v h = split_at-name k (format_value v) h

-- A pair that is written for a new variable adds exactly that variable.
add_variable-new :
    (n : ℕ) (k v : Text) (st : ParsedEnv)
    → is_inherited k ≡ false
    → has_own k st.vars ≡ false
    → add_variable n k v st ≡ record st { vars = st.vars ++ ((k, v) ∷ []) }
unfolding add_variable assign
add_variable-new n k v st hi ho = rw (ho, hi, not_proto k hi, put-append k v st.vars ho) refl

parse_line-format_pair :
    (n : ℕ) (k v : Text) (st : ParsedEnv)
    → is_name k ≡ true
    → parse_line n (format_pair (k, v)) st ≡ add_variable n k v st
unfolding parse_line parse_pair without_export
parse_line-format_pair n k v st hn =
    let name = name-is_name_char k hn in
    rw (trim-format_pair k v hn, not_skipped k v hn, no_export k v name, split_pair k v name)
      (rw (trim-plain k (name-plain k name), hn, parse_value-format_value v) refl)

-- A variable for each line, under a valid name that no object inherits and that none before it has.
unfoldable pub savable : Vars → Vars → Bool
savable before [] = true
savable before ((k, v) ∷ vars) =
    (is_name k && not (is_inherited k) && not (has_own k before))
    && savable (before ++ ((k, v) ∷ [])) vars

parse_lines-format_pair :
    (n : ℕ) (vars : Vars) (st : ParsedEnv)
    → savable st.vars vars ≡ true
    → parse_lines n (map format_pair vars) st ≡ record st { vars = st.vars ++ vars }
unfolding parse_lines savable
parse_lines-format_pair n [] st h = rw (append-nil st.vars) refl
parse_lines-format_pair n ((k, v) ∷ vars) st h =
    ap (parse_lines (n + 1) (map format_pair vars)) (
      parse_line-format_pair n k v st (ground arith)
      ∙ add_variable-new n k v st (ground arith) (ground arith))
    ∙ (parse_lines-format_pair (n + 1) vars (record st { vars = st.vars ++ ((k, v) ∷ []) })
          (ground arith)
        ∙ ap (λ w. record st { vars = w }) (append_assoc st.vars ((k, v) ∷ []) vars))

unbroken-name : (k : Text) → all is_name_char k ≡ true → unbroken k ≡ true
unbroken-name k h = unbroken-plain k (name-plain k h)

unbroken-format_pair : (k v : Text) → is_name k ≡ true → unbroken (format_pair (k, v)) ≡ true
unfolding format_pair
unbroken-format_pair k v h =
    unbroken-append k (61 ∷ format_value v) (unbroken-name k (name-is_name_char k h))
      (unbroken-format_value v)

-- A text of no variables is one empty line; any other has one line for each variable.
lines_of-format_env_text :
    (before : Vars) (k v : Text) (vars : Vars)
    → savable before ((k, v) ∷ vars) ≡ true
    → lines_of (format_env_text ((k, v) ∷ vars)) ≡ map format_pair ((k, v) ∷ vars)
unfolding format_env_text join_lines savable
lines_of-format_env_text before k v [] h =
    lines_of-unbroken (format_pair (k, v)) (unbroken-format_pair k v (ground arith))
lines_of-format_env_text before k v ((j, w) ∷ vars) h =
    lines_of-append (format_pair (k, v)) (format_env_text ((j, w) ∷ vars))
      (unbroken-format_pair k v (ground arith))
    ∙ ap (λ ls. format_pair (k, v) ∷ ls)
        (lines_of-format_env_text (before ++ ((k, v) ∷ [])) j w vars (ground arith))

no_lines : parse_env_text (format_env_text []) ≡ record { vars = []; errors = [] }
unfolding parse_env_text parse_lines parse_line format_env_text join_lines lines_of trim trim_end
    trim_start
no_lines = refl

-- The text that formatEnvText writes for a list of variables is read by parseEnvText as exactly
-- those variables, in their order and without an error, whatever characters their values have. The
-- names are valid, different from one another, and none is a name that every object inherits.
pub parse_env_text-format_env_text :
    (vars : Vars)
    → savable [] vars ≡ true
    → parse_env_text (format_env_text vars) ≡ record { vars = vars; errors = [] }
unfolding parse_env_text
parse_env_text-format_env_text [] h = no_lines
parse_env_text-format_env_text ((k, v) ∷ vars) h =
    rw (lines_of-format_env_text [] k v vars h)
      (parse_lines-format_pair 1 ((k, v) ∷ vars) (record { vars = []; errors = [] }) h)

-- A variable whose valid name every JavaScript object inherits, alone in its text, is reported as
-- appearing more than once.
pub inherited_is_reported :
    (k v : Text)
    → is_name k ≡ true
    → is_inherited k ≡ true
    → (parse_env_text (format_env_text ((k, v) ∷ []))).errors ≡ repeated_name 1 k ∷ []
unfolding parse_env_text parse_lines format_env_text join_lines add_variable has_own
inherited_is_reported k v hn hi =
    rw (lines_of-unbroken (format_pair (k, v)) (unbroken-format_pair k v hn))
      (rw (parse_line-format_pair 1 k v (record { vars = []; errors = [] }) hn) (rw hi refl))
