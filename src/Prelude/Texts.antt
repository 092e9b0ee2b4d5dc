-- ===== src/Prelude/Texts.antt =====
-- Lists of texts as sets.
use Prim.Native.String.{String}
use mathlib.Core.Bool.{Bool, true, not, ◌&&◌}
use mathlib.Core.List.{List, [], ◌∷◌}
use text.Mathlib.Text.{◌==◌}
use the_council.Prelude.Lists.{any}

-- A text is in the list.
abbrev pub mem_text : String → List String → Bool
mem_text s = any (λ t. t == s)

-- `len(set(texts)) == len(texts)`.
abbrev pub has_unique_texts : List String → Bool
has_unique_texts [] = true
has_unique_texts (t ∷ ts) = not (mem_text t ts) && has_unique_texts ts
