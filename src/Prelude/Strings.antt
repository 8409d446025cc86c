-- ===== src/Prelude/Strings.antt =====
-- Lists of strings, as the sets that the code makes of them.
use Prim.Native.String.{String}
use text.Mathlib.Text.{◌==◌ as str_eq}
use mathlib.Core.Bool.{Bool, false, ◌||◌}
use mathlib.Core.List.{List, [], ◌∷◌}

abbrev pub mem_str : String → List String → Bool
mem_str d [] = false
mem_str d (x ∷ xs) = str_eq x d || mem_str d xs
