-- ===== src/Experience/Names.antt =====
-- The tests on texts of experience/store.py.
use the_council.Prelude.{ℕ, ◌-◌, Bool, true, false, not, ◌&&◌, ◌||◌, leb, eqb}
use Prim.Native.String.{String, [], ◌∷◌}
use Prim.Native.Char.{code}
use the_council.Result.{Result, guard, invalid_identity}

abbrev is_hexadecimal : ℕ → Bool
is_hexadecimal c = leb 48 c && leb c 57 || leb 97 c && leb c 102

abbrev hexadecimal : ℕ → String → Bool
hexadecimal n [] = eqb n 0
hexadecimal n (c ∷ s) =
    let rest = hexadecimal (n - 1) s in not (eqb n 0) && is_hexadecimal (code c) && rest

-- `_validate_identity`: 64 lowercase hexadecimal digits.
unfoldable pub validate_identity : String → Result (Unit {0})
validate_identity s = guard (hexadecimal 64 s) invalid_identity

-- `text.startswith(prefix)`.
abbrev pub starts_with : String → String → Bool
starts_with [] text = true
starts_with (c ∷ prefix) [] = false
starts_with (c ∷ prefix) (d ∷ text) = eqb (code c) (code d) && starts_with prefix text
