-- ===== src/Prelude/Text.antt =====
-- Searches in texts.
use Prim.Native.String.{String, ◌++◌}
use mathlib.Core.Bool.{Bool, ◌||◌}
use text.Mathlib.Text.{starts_with}
use artdaq_daqinterface.Prelude.Tests.{if◌then◌else◌}

-- Python's `needle in text`.
abbrev pub occurs : String → String → Bool
occurs needle String.[] = starts_with String.[] needle
occurs needle (String.◌∷◌ c s) = starts_with (String.◌∷◌ c s) needle || occurs needle s

-- The text before the first occurrence of the character that `mark` is, or all of it.
unfoldable pub before_mark : String → String → String
before_mark mark String.[] = String.[]
before_mark mark (String.◌∷◌ c s) =
    let rest = before_mark mark s in
    if starts_with (String.◌∷◌ c s) mark then String.[] else String.◌∷◌ c rest

-- Python's `a + b` on texts; `◌++◌` is kept for lists.
unfoldable pub append_text : String → String → String
append_text a b = a ++ b
