-- ===== src/Env/Quoting.antt =====
-- What formatEnvText writes for a value is what parseValue reads (src/env/parse.ts).
use musdash.Prelude.{
  ℕ, ◌+◌, ◌≡◌, refl, ap, ◌∙◌, false, ◌||◌, some, [], ◌∷◌, ◌++◌, arith, ◌==◌, inl, inr, Bool-cases,
  any, take, length, length-append, append_assoc,
}
use musdash.Prelude.Code.{Text}
use musdash.Env.Chars.{is_space, trim, trim_start, trim_end}
use musdash.Env.Values.{
  double_quote, single_quote, closing_from, find_closing_quote, unescape_from, unescape_double,
  unescaped, before_comment, quoted_value, trimmed_value, parse_value, escaped, escape_double,
  quotable, needs_quoting, format_value,
}

-- A text that ends in a character that trim leaves is left by trim, whatever stands before.
pub trim_end-append :
    (x : Text) (d : ℕ) (s : Text)
    → trim_end (d ∷ s) ≡ d ∷ s
    → trim_end (x ++ (d ∷ s)) ≡ x ++ (d ∷ s)
unfolding trim_end
trim_end-append [] d s h = h
trim_end-append (c ∷ []) d s h = rw h refl
trim_end-append (c ∷ e ∷ x) d s h = rw (trim_end-append (e ∷ x) d s h) refl

pub trim_end-last : (d : ℕ) → is_space d ≡ false → trim_end (d ∷ []) ≡ d ∷ []
unfolding trim_end
trim_end-last d h = rw h refl

-- A backslash, a quote or a blank has an escape of two characters, any other stands for itself.
closing_from-escaped :
    (c : ℕ) (s : Text) (n : ℕ)
    → closing_from 34 false s ≡ some n
    → closing_from 34 false (escaped c ++ s) ≡ some (length (escaped c) + n)
unfolding closing_from escaped
closing_from-escaped c s n h = ground arith

closing_from-escape_double :
    (v : Text)
    → closing_from 34 false (escape_double v ++ (34 ∷ [])) ≡ some (length (escape_double v))
unfolding closing_from escape_double
closing_from-escape_double [] = refl
closing_from-escape_double (c ∷ v) = rw (append_assoc (escaped c) (escape_double v) (34 ∷ [])) (
    rw (length-append (escaped c) (escape_double v)) (
      closing_from-escaped c (escape_double v ++ (34 ∷ [])) (length (escape_double v))
        (closing_from-escape_double v)))

unescape_from-escaped :
    (c : ℕ) (s : Text) → unescape_from false (escaped c ++ s) ≡ c ∷ unescape_from false s
unfolding unescape_from escaped unescaped
unescape_from-escaped c s = ground arith

unescape_double-escape_double : (v : Text) → unescape_double (escape_double v) ≡ v
unfolding unescape_double escape_double unescape_from
unescape_double-escape_double [] = refl
unescape_double-escape_double (c ∷ v) =
    unescape_from-escaped c (escape_double v) ∙ ap (λ t. c ∷ t) (unescape_double-escape_double v)

take-append_length : (x y : Text) → take (length x) (x ++ y) ≡ x
take-append_length [] y = refl
take-append_length (c ∷ x) y = ap (λ t. c ∷ t) (take-append_length x y)

-- A value in quotes.
parse_value-quoted : (v : Text) → parse_value (34 ∷ (escape_double v ++ (34 ∷ []))) ≡ v
unfolding parse_value trimmed_value quoted_value find_closing_quote trim trim_start trim_end
    is_space
parse_value-quoted v = rw (trim_end-append (34 ∷ escape_double v) 34 [] refl) (
    rw (closing_from-escape_double v)
      (rw (take-append_length (escape_double v) (34 ∷ [])) (unescape_double-escape_double v)))

-- A value that needs no quotes has no blank, no quote and no comment sign.
pub trim_end-plain : (v : Text) → any quotable v ≡ false → trim_end v ≡ v
unfolding trim_end quotable
trim_end-plain [] h = refl
trim_end-plain (c ∷ []) h = ground arith
trim_end-plain (c ∷ d ∷ v) h = rw (trim_end-plain (d ∷ v) (ground arith)) refl

before_comment-plain : (v : Text) → any quotable v ≡ false → before_comment v ≡ v
unfolding before_comment quotable is_space
before_comment-plain [] h = refl
before_comment-plain (c ∷ v) h = rw (before_comment-plain v (ground arith)) (ground arith)

not_space : (c : ℕ) (v : Text) → any quotable (c ∷ v) ≡ false → is_space c ≡ false
unfolding quotable
not_space c v h = ground arith

not_quote :
    (c : ℕ) (v : Text)
    → any quotable (c ∷ v) ≡ false
    → ((c == double_quote) || (c == single_quote)) ≡ false
unfolding quotable
not_quote c v h = ground arith

pub trim-plain : (v : Text) → any quotable v ≡ false → trim v ≡ v
unfolding trim trim_start quotable trim_end
trim-plain [] h = refl
trim-plain (c ∷ v) h = rw (not_space c v h) (trim_end-plain (c ∷ v) h)

parse_value-plain : (v : Text) → any quotable v ≡ false → parse_value v ≡ v
unfolding parse_value trimmed_value trim trim_end trim_start
parse_value-plain [] h = refl
parse_value-plain (c ∷ v) h =
    rw (trim-plain (c ∷ v) h, not_quote c v h, before_comment-plain (c ∷ v) h)
      (trim-plain (c ∷ v) h)

-- What is written for a value is read as that value.
pub parse_value-format_value : (v : Text) → parse_value (format_value v) ≡ v
unfolding format_value needs_quoting
parse_value-format_value v = elim (Bool-cases (any quotable v)) [
  | inl e ↦ rw e (parse_value-quoted v)
  | inr e ↦ rw e (parse_value-plain v e)
]
