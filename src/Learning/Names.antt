-- ===== src/Learning/Names.antt =====
-- `re.fullmatch("weights-v[0-9]{4}", text)`.
use the_council.Prelude.{Bool, true, false, ◌&&◌, leb, eqb, ℕ, suc, zero}
use Prim.Native.String.{String, [], ◌∷◌}
use Prim.Native.Char.{code}

abbrev are_digits : ℕ → String → Bool
are_digits zero [] = true
are_digits (suc n) (c ∷ s) = leb 48 (code c) && leb (code c) 57 && are_digits n s
are_digits _ _ = false

abbrev follows : String → String → Bool
follows [] text = are_digits 4 text
follows (c ∷ prefix) [] = false
follows (c ∷ prefix) (d ∷ text) = eqb (code c) (code d) && follows prefix text

unfoldable pub is_generation_id : String → Bool
is_generation_id text = follows "weights-v" text
