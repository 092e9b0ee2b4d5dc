-- ===== src/Prelude/Digits.antt =====
-- Decimal numerals.
use Prim.Native.Nat.{ℕ, zero, suc, ◌/◌, ◌%◌}
use Prim.Native.String.{String, ◌++◌}
use the_council.Prelude.Tests.{if◌then◌else◌, eqb, ltb}

abbrev digit : ℕ → String
digit n =
    if eqb n 0
    then "0"
    else if eqb n 1
    then "1"
    else if eqb n 2
    then "2"
    else if eqb n 3
    then "3"
    else if eqb n 4
    then "4"
    else if eqb n 5
    then "5"
    else if eqb n 6
    then "6"
    else if eqb n 7
    then "7"
    else if eqb n 8
    then "8"
    else "9"

-- The last `width` digits of a number.
abbrev pub padded : ℕ → ℕ → String
padded zero n = ""
padded (suc width) n = padded width (n / 10) ++ digit (n % 10)

-- A numeral without leading zeros; as many steps as the number itself are more than enough.
abbrev decimal_by : ℕ → ℕ → String
decimal_by zero n = ""
decimal_by (suc fuel) n =
    let rest = decimal_by fuel (n / 10) in if ltb n 10 then digit n else rest ++ digit (n % 10)

abbrev pub decimal : ℕ → String
decimal n = decimal_by (suc n) n
