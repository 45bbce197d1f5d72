-- ===== src/Prelude/Case.antt =====
-- `toLowerCase` of JavaScript on the letters of ASCII. Other characters are left alone, so a capital
-- letter outside ASCII is one that this does not lower.
use Prim.Native.Char.{Char, code}
use Prim.Native.String.{String}
use musdash.Prelude.Tests.{◌==◌, if◌then◌else◌}

-- The character of the second text that stands where `c` stands in the first.
map_char : Char → String → String → Char
map_char c (String.◌∷◌ u us) (String.◌∷◌ l ls) = if code u == code c then l else map_char c us ls
map_char c _ _ = c

abbrev upper_letters : String
upper_letters = "ABCDEFGHIJKLMNOPQRSTUVWXYZ"

abbrev lower_letters : String
lower_letters = "abcdefghijklmnopqrstuvwxyz"

unfoldable pub to_lower : String → String
unfolding map_char
to_lower String.[] = String.[]
to_lower (String.◌∷◌ c s) = String.◌∷◌ (map_char c upper_letters lower_letters) (to_lower s)
