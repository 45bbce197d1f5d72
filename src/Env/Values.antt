-- ===== src/Env/Values.antt =====
-- One value of the Env tab (src/env/parse.ts): reading it (parseValue) and writing it (the value
-- part of formatEnvText).
use musdash.Prelude.{
  ℕ, suc, Bool, true, false, ◌&&◌, ◌||◌, Option, none, some, [], ◌∷◌, ◌++◌, if◌then◌else◌, ◌==◌,
  ltb, map_option, any, take,
}
use musdash.Prelude.Code.{Text}
use musdash.Env.Chars.{is_space, trim, starts_with_code}

abbrev pub backslash : ℕ
backslash = 92

abbrev pub double_quote : ℕ
double_quote = 34

abbrev pub single_quote : ℕ
single_quote = 39

-- The loop of findClosingQuote after the opening quote: where the closing one stands. `skip` says
-- that the character before was a backslash that counts.
unfoldable pub closing_from : ℕ → Bool → Text → Option ℕ
closing_from q skip [] = none
closing_from q true (c ∷ s) = map_option suc (closing_from q false s)
closing_from q false (c ∷ s) =
    let skips = (c == backslash) && (q == double_quote) in
    let rest = closing_from q skips s in
    if skips then map_option suc rest else if c == q then some 0 else map_option suc rest

unfoldable pub find_closing_quote : Text → ℕ → Option ℕ
unfolding closing_from
find_closing_quote s quote = closing_from quote false s

-- What `.` does not match.
abbrev pub is_line_terminator : ℕ → Bool
is_line_terminator c = (c == 10) || (c == 13) || (c == 8232) || (c == 8233)

-- The switch of unescapeDouble.
unfoldable pub unescaped : ℕ → Text
unescaped c =
    if c == 110
    then 10 ∷ []
    else if c == 116
    then 9 ∷ []
    else if c == 114
    then 13 ∷ []
    else if c == backslash
    then backslash ∷ []
    else if c == double_quote
    then double_quote ∷ []
    else backslash ∷ c ∷ []

-- s.replace(/\\(.)/g, ...); `pending` says that a backslash stands before the text.
unfoldable pub unescape_from : Bool → Text → Text
unescape_from false [] = []
unescape_from true [] = backslash ∷ []
unescape_from false (c ∷ s) =
    let rest = unescape_from (c == backslash) s in if c == backslash then rest else c ∷ rest
unescape_from true (c ∷ s) =
    (if is_line_terminator c then backslash ∷ c ∷ [] else unescaped c) ++ unescape_from false s

unfoldable pub unescape_double : Text → Text
unfolding unescape_from unescaped
unescape_double s = unescape_from false s

-- The value up to an inline comment: trimmed.indexOf(" #") and the slice.
unfoldable pub before_comment : Text → Text
before_comment [] = []
before_comment (c ∷ s) =
    let rest = before_comment s in if (c == 32) && starts_with_code 35 s then [] else c ∷ rest

-- The two branches of parseValue on a quoted value.
unfoldable pub quoted_value : ℕ → Text → Option ℕ → Text
unfolding unescape_double
quoted_value quote s none = s
quoted_value quote s (some closing) =
    let inner = take closing s in if quote == double_quote then unescape_double inner else inner

unfoldable pub trimmed_value : Text → Text
unfolding quoted_value find_closing_quote before_comment
trimmed_value [] = []
trimmed_value (quote ∷ s) =
    if (quote == double_quote) || (quote == single_quote)
    then quoted_value quote s (find_closing_quote s quote)
    else trim (before_comment (quote ∷ s))

unfoldable pub parse_value : Text → Text
unfolding trimmed_value
parse_value rest = trimmed_value (trim rest)

-- DOUBLE_ESCAPES, and the character itself for any other.
unfoldable pub escaped : ℕ → Text
escaped c =
    if c == backslash
    then backslash ∷ backslash ∷ []
    else if c == double_quote
    then backslash ∷ double_quote ∷ []
    else if c == 10
    then backslash ∷ 110 ∷ []
    else if c == 13
    then backslash ∷ 114 ∷ []
    else if c == 9
    then backslash ∷ 116 ∷ []
    else c ∷ []

unfoldable pub escape_double : Text → Text
unfolding escaped
escape_double [] = []
escape_double (c ∷ s) = escaped c ++ escape_double s

-- A character that asks for quotes.
unfoldable pub quotable : ℕ → Bool
quotable c =
    is_space c
    || (c == double_quote)
    || (c == single_quote)
    || (c == 35)
    || (c == backslash)
    || ltb c 32
    || (c == 127)

unfoldable pub needs_quoting : Text → Bool
unfolding quotable
needs_quoting v = any quotable v

unfoldable pub format_value : Text → Text
unfolding escape_double needs_quoting
format_value v =
    if needs_quoting v then double_quote ∷ (escape_double v ++ (double_quote ∷ [])) else v
