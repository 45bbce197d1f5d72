-- ===== src/Env/Tests.antt =====
-- Tests of the environment variables (src/env): values with quotes, blanks and dollar signs.
use musdash.Prelude.{◌≡◌, refl, true, List, [], ◌∷◌, Option, none}
use musdash.Prelude.Code.{Text, codes, text_eq}
use musdash.Env.Chars.{is_name, is_letter, is_name_char}
use musdash.Env.File.{Vars, is_inherited, has_own, parse_env_text, format_env_text}
use musdash.Env.RoundTrip.{savable, parse_env_text-format_env_text}
use musdash.Env.Interpolate.{expand}
use musdash.Env.Interpolate.Templates.{Piece, plain, refers, write, fill, expand-write}

abbrev some_vars : Vars
some_vars =
    (codes "GREETING", codes " say \"hi\" # not a comment\n")
    ∷ (codes "EMPTY", [])
    ∷ (codes "PATH_1", codes "C:\\dir")
    ∷ (codes "URL", codes "http://host:80/?a=b")
    ∷ []

is_savable : savable [] some_vars ≡ true
unfolding savable text_eq is_name is_letter is_name_char is_inherited has_own
is_savable = refl

parse_env_text-format_env_text_example :
    parse_env_text (format_env_text some_vars) ≡ record { vars = some_vars; errors = [] }
parse_env_text-format_env_text_example = parse_env_text-format_env_text some_vars is_savable

abbrev nothing_inherited : Text → Option Text
nothing_inherited name = none

abbrev pieces : List Piece
pieces = plain (codes "pa$$word ${USER} is ") ∷ refers (codes "USER") ∷ []

expand-write_example :
    expand nothing_inherited (codes "DSN") ((codes "USER", codes "${HOME}") ∷ []) (write pieces)
    ≡ fill nothing_inherited (codes "DSN") ((codes "USER", codes "${HOME}") ∷ []) pieces
unfolding is_name is_letter is_name_char
expand-write_example =
    expand-write nothing_inherited (codes "DSN") ((codes "USER", codes "${HOME}") ∷ []) pieces refl
