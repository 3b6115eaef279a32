-- ===== src/Prelude/Texts.antt =====
-- Texts: decimal numbers as `%d` prints them, and a text read as its bytes.
use Prim.Native.Nat.{ℕ, zero, suc, ◌/◌, ◌%◌}
use Prim.Native.Char.{code}
use Prim.Native.String.{String, ◌++◌ as append}
use mathlib.Core.List.{List, [], ◌∷◌}
use minato.Prelude.Tests.{ltb, ◌==◌, if◌then◌else◌}
use minato.Prelude.Int.{ℤ, pos, negsuc}

-- Concatenation, the `+` of Go strings.
infixr 65 ◌⧺◌
abbrev pub ◌⧺◌ : String → String → String
s ⧺ t = append s t

-- The last decimal digit.
pub digit : ℕ → String
digit d =
    if d == 0
    then "0"
    else if d == 1
    then "1"
    else if d == 2
    then "2"
    else if d == 3
    then "3"
    else if d == 4
    then "4"
    else if d == 5
    then "5"
    else if d == 6
    then "6"
    else if d == 7
    then "7"
    else if d == 8
    then "8"
    else "9"

-- The digits of `n`, most significant first; a number has fewer digits than `suc n`.
pub itoa_fuel : ℕ → ℕ → String
itoa_fuel zero n = ""
itoa_fuel (suc f) n =
    let high = itoa_fuel f (n / 10) in if ltb n 10 then digit n else high ⧺ digit (n % 10)

-- `%d` of a natural number.
unfoldable pub itoa : ℕ → String
unfolding itoa_fuel digit
itoa n = itoa_fuel (suc n) n

-- `%d` of an integer.
unfoldable pub itoa_ℤ : ℤ → String
unfolding itoa
itoa_ℤ (pos n) = itoa n
itoa_ℤ (negsuc n) = "-" ⧺ itoa (suc n)

-- The bytes of an ASCII text.
abbrev pub codes : String → List ℕ
codes String.[] = []
codes (String.◌∷◌ c s) = code c ∷ codes s

-- `%q` of a text that needs no escapes, such as a resource name.
abbrev pub quote : String → String
quote s = "\"" ⧺ s ⧺ "\""
