-- ===== src/Common/Texts.antt =====
-- `text.includes(word)` on strings.
use Prim.Native.String.{String, [], ◌∷◌}
use mathlib.Core.Bool.{Bool, ◌||◌}
use text.Mathlib.Text.{starts_with}

abbrev pub contains : String → String → Bool
contains [] word = starts_with [] word
contains (c ∷ s) word = starts_with (c ∷ s) word || contains s word
