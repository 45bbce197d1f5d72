-- ===== src/Env/Chars.antt =====
-- Classes of characters, trimming and splitting, as src/env/parse.ts uses them. A text is the list
-- of its UTF-16 code units.
use musdash.Prelude.{
  ℕ, Bool, true, false, ◌&&◌, ◌||◌, Option, none, some, List, [], ◌∷◌, ◌++◌, if◌then◌else◌, ◌==◌,
  leb, map_option, all,
}
use musdash.Prelude.Code.{Text}

-- What `\s` matches and trim strips.
unfoldable pub is_space : ℕ → Bool
is_space c =
    (leb 9 c && leb c 13)
    || (c == 32)
    || (c == 160)
    || (c == 5760)
    || (leb 8192 c && leb c 8202)
    || (leb 8232 c && leb c 8233)
    || (c == 8239)
    || (c == 8287)
    || (c == 12288)
    || (c == 65279)

-- `[A-Za-z_]`
unfoldable pub is_letter : ℕ → Bool
is_letter c = (leb 65 c && leb c 90) || (c == 95) || (leb 97 c && leb c 122)

-- `[A-Za-z0-9_]`
unfoldable pub is_name_char : ℕ → Bool
unfolding is_letter
is_name_char c = is_letter c || (leb 48 c && leb c 57)

-- KEY_RE.
unfoldable pub is_name : Text → Bool
is_name [] = false
is_name (c ∷ s) = is_letter c && all is_name_char s

unfoldable pub trim_start : Text → Text
trim_start [] = []
trim_start (c ∷ s) = if is_space c then trim_start s else c ∷ s

abbrev pub cons_end : ℕ → Text → Text
cons_end c [] = if is_space c then [] else c ∷ []
cons_end c (d ∷ s) = c ∷ d ∷ s

unfoldable pub trim_end : Text → Text
trim_end [] = []
trim_end (c ∷ s) = cons_end c (trim_end s)

unfoldable pub trim : Text → Text
trim s = trim_end (trim_start s)

abbrev pub starts_with_code : ℕ → Text → Bool
starts_with_code c [] = false
starts_with_code c (d ∷ s) = d == c

abbrev pub push_front : ℕ → List Text → List Text
push_front c [] = (c ∷ []) ∷ []
push_front c (l ∷ ls) = (c ∷ l) ∷ ls

-- text.split(/\r?\n/)
unfoldable pub lines_of : Text → List Text
lines_of [] = [] ∷ []
lines_of (c ∷ s) =
    let rest = lines_of s in
    if c == 10
    then [] ∷ rest
    else if (c == 13) && starts_with_code 10 s
    then rest
    else push_front c rest

-- lines.join("\n")
unfoldable pub join_lines : List Text → Text
join_lines [] = []
join_lines (l ∷ []) = l
join_lines (l ∷ m ∷ ls) = l ++ (10 ∷ join_lines (m ∷ ls))

-- The text before the first `c` and the text after it: indexOf and the two slices.
unfoldable pub split_at : ℕ → Text → Option (Text × Text)
split_at c [] = none
split_at c (d ∷ s) =
    let rest = split_at c s in
    if d == c then some ([], s) else map_option (λ p. (d ∷ p.0, p.1)) rest

-- s.startsWith(p)
unfoldable pub has_prefix : Text → Text → Bool
has_prefix [] s = true
has_prefix (c ∷ p) [] = false
has_prefix (c ∷ p) (d ∷ s) = (d == c) && has_prefix p s
