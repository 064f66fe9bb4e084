-- ===== src/Base/CString.antt =====
-- The parts of the C string library that the backend calls, on lists of bytes.
use Prim.Native.Nat.{ℕ, zero, suc, ◌+◌, ◌/◌, ◌%◌}
use Prim.Native.Char.{code}
use Prim.Native.String.{String}
use mathlib.Core.Bool.{Bool, true, false, ◌&&◌}
use mathlib.Core.List.{[], ◌∷◌}
use mathlib.Core.Option.{Option, none, some}
use vecoda.Base.Tests.{◌==◌, ltb, if◌then◌else◌, Text}

-- What a `char*` to these bytes stands for: the bytes before the first 0.
unfoldable pub c_string : Text → Text
c_string [] = []
c_string (c ∷ cs) = if c == 0 then [] else c ∷ c_string cs

-- `strrchr`: the place of the last `c`.
unfoldable pub strrchr : ℕ → Text → Option ℕ
strrchr c [] = none
strrchr c (x ∷ xs) = elim (strrchr c xs) [
  | some i ↦ some (suc i)
  | none ↦ if x == c then some 0 else none
]

-- Whether the first text begins the second: `strncmp(p, s, strlen(p)) == 0`.
unfoldable pub starts_with : Text → Text → Bool
starts_with [] s = true
starts_with (p ∷ ps) [] = false
starts_with (p ∷ ps) (c ∷ cs) = p == c && starts_with ps cs

decimal_fuel : ℕ → ℕ → Text → Text
decimal_fuel zero n acc = acc
decimal_fuel (suc f) n acc =
    let rest = decimal_fuel f (n / 10) ((48 + n % 10) ∷ acc) in
    if ltb n 10 then (48 + n) ∷ acc else rest

-- `%d` of a number that is not negative; it has at most as many digits as it is large, and one.
unfoldable pub decimal : ℕ → Text
unfolding decimal_fuel
decimal n = decimal_fuel (suc n) n []

-- The bytes of a literal in ASCII.
abbrev pub codes : String → Text
codes String.[] = []
codes (String.◌∷◌ c s) = code c ∷ codes s
