-- ===== src/Prelude/Code.antt =====
-- Text that the program walks, as a list of its character codes.
use Prim.Native.Nat.{ℕ}
use Prim.Native.Char.{code}
use Prim.Native.String.{String}
use mathlib.Core.Bool.{Bool, true, false, ◌&&◌, ◌||◌}
use mathlib.Core.List.{List, [], ◌∷◌}
use mathlib.Core.Path.{◌≡◌, refl, ap₂, subst}
use mathlib.Core.Logic.{◌↔◌}
use mathlib.Core.Bool.{false≢true}
use native.Mathlib.Omega.{arith}
use musdash.Prelude.Tests.{◌==◌, ==_refl, ltb}

abbrev pub Text : Type 0
Text = List ℕ

-- The codes of a literal.
abbrev pub codes : String → Text
codes String.[] = []
codes (String.◌∷◌ c s) = code c ∷ codes s

unfoldable pub text_eq : Text → Text → Bool
text_eq [] [] = true
text_eq (a ∷ s) (b ∷ t) = (a == b) && text_eq s t
text_eq _ _ = false

-- a < b by code units.
pub before : Text → Text → Bool
before s [] = false
before [] (d ∷ t) = true
before (c ∷ s) (d ∷ t) = ltb c d || ((c == d) && before s t)

and_left : (c d : ℕ) (b : Bool) → ((c == d) && b) ≡ true → c ≡ d
and_left c d b h = ground arith

and_right : (c d : ℕ) (b : Bool) → ((c == d) && b) ≡ true → b ≡ true
and_right c d b h = ground arith

pub text_eq_refl : (s : Text) → text_eq s s ≡ true
unfolding text_eq
text_eq_refl [] = refl
text_eq_refl (c ∷ s) = rw (==_refl c) (text_eq_refl s)

pub text_eq→eq : (s t : Text) → text_eq s t ≡ true → s ≡ t
unfolding text_eq
text_eq→eq [] [] h = refl
text_eq→eq [] (d ∷ t) h = absurd (false≢true h)
text_eq→eq (c ∷ s) [] h = absurd (false≢true h)
text_eq→eq (c ∷ s) (d ∷ t) h =
    ap₂ (λ x y. x ∷ y) (and_left c d (text_eq s t) h)
      (text_eq→eq s t (and_right c d (text_eq s t) h))

-- A text compares with two equal texts alike.
pub text_eq_iff : (s t : Text) → (text_eq s t ≡ true) ↔ (s ≡ t)
text_eq_iff s t = (text_eq→eq s t, λ e. subst (λ u. text_eq s u ≡ true) e (text_eq_refl s))
