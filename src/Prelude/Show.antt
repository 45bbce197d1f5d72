-- ===== src/Prelude/Show.antt =====
-- `${n}` in a template literal: a natural number in decimal digits.
use Prim.Native.Nat.{ℕ, zero, suc, ◌/◌, ◌%◌}
use Prim.Native.String.{String, ◌++◌}
use musdash.Prelude.Tests.{if◌then◌else◌, ltb}

abbrev digit : ℕ → String
digit zero = "0"
digit (suc zero) = "1"
digit (suc (suc zero)) = "2"
digit (suc (suc (suc zero))) = "3"
digit (suc (suc (suc (suc zero)))) = "4"
digit (suc (suc (suc (suc (suc zero))))) = "5"
digit (suc (suc (suc (suc (suc (suc zero)))))) = "6"
digit (suc (suc (suc (suc (suc (suc (suc zero))))))) = "7"
digit (suc (suc (suc (suc (suc (suc (suc (suc zero)))))))) = "8"
digit _ = "9"

-- Every round divides by ten, so the number itself, and one, is enough fuel.
show_loop : ℕ → ℕ → String
show_loop zero n = ""
show_loop (suc fuel) n =
    let front = show_loop fuel (n / 10) in if ltb n 10 then digit n else front ++ digit (n % 10)

unfoldable pub show : ℕ → String
unfolding show_loop
show n = show_loop (suc n) n
