-- ===== src/Prelude/Text.antt =====
-- Texts built from pieces: decimal numbers, concatenation and joining, over the native `String`.
use Prim.Native.Nat.{ℕ, zero, suc, ◌/◌, ◌%◌}
use Prim.Native.String.{String, ◌++◌}
use mathlib.Core.List.{List, [], ◌∷◌}
use modern_c.Prelude.Tests.{ltb, if◌then◌else◌}

-- `"".join(pieces)`.
unfoldable pub cat : List String → String
cat [] = ""
cat (s ∷ ss) = s ++ cat ss

-- `sep.join(pieces)`.
unfoldable pub join : String → List String → String
join sep [] = ""
join sep (s ∷ []) = s
join sep (s ∷ (t ∷ ts)) = s ++ (sep ++ join sep (t ∷ ts))

-- The digit for a number below ten.
unfoldable pub digit : ℕ → String
digit zero = "0"
digit (suc zero) = "1"
digit (suc (suc zero)) = "2"
digit (suc (suc (suc zero))) = "3"
digit (suc (suc (suc (suc zero)))) = "4"
digit (suc (suc (suc (suc (suc zero))))) = "5"
digit (suc (suc (suc (suc (suc (suc zero)))))) = "6"
digit (suc (suc (suc (suc (suc (suc (suc zero))))))) = "7"
digit (suc (suc (suc (suc (suc (suc (suc (suc zero)))))))) = "8"
digit _ = "9"

unfoldable pub decimal_fuel : ℕ → ℕ → String
unfolding digit
decimal_fuel zero n = ""
decimal_fuel (suc fuel) n =
    let more = decimal_fuel fuel (n / 10) ++ digit (n % 10) in if ltb n 10 then digit n else more

-- `str(n)`: a number has no more digits than it counts, and one.
unfoldable pub decimal : ℕ → String
unfolding decimal_fuel digit
decimal n = decimal_fuel (suc n) n
