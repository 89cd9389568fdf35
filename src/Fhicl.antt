-- ===== src/Fhicl.antt =====
-- rc/control/utilities.py: the searches for tables in the text of a FHiCL document. Positions count
-- characters.
pub mod Places
pub mod Enclosing
pub mod Closing
pub mod Tables
mod Tests
use Prim.Native.Char.{Char, code}
use Prim.Native.String as Text
use text.Mathlib.Text.{starts_with}
use artdaq_daqinterface.Prelude.{
  ℕ, zero, suc, ◌+◌, ◌-◌, String, Bool, true, false, Option, none, some, List, [], ◌∷◌, ◌++◌, ltb,
  ◌==◌, if◌then◌else◌,
}

pub data Brace : Type 0 where
  opening closing : Brace

unfoldable pub brace : Char → Option Brace
brace c = if code c == 123 then some opening else (if code c == 125 then some closing else none)

-- Python's slices `s[n:]` and `s[:n]`.
unfoldable pub drop_text : ℕ → String → String
drop_text zero s = s
drop_text (suc n) Text.String.[] = Text.String.[]
drop_text (suc n) (Text.String.◌∷◌ c s) = drop_text n s

unfoldable pub take_text : ℕ → String → String
take_text zero s = Text.String.[]
take_text (suc n) Text.String.[] = Text.String.[]
take_text (suc n) (Text.String.◌∷◌ c s) = Text.String.◌∷◌ c (take_text n s)

-- The position of the first occurrence, where `s` begins at position `k`.
unfoldable pub index_from : String → ℕ → String → Option ℕ
index_from needle k Text.String.[] = if starts_with Text.String.[] needle then some k else none
index_from needle k (Text.String.◌∷◌ c s) =
    let later = index_from needle (suc k) s in
    if starts_with (Text.String.◌∷◌ c s) needle then some k else later

-- `s.find(needle, start)`, with none for -1.
unfoldable pub find : String → String → ℕ → Option ℕ
unfolding index_from drop_text
find s needle start =
    if ltb (Text.count s) start then none else index_from needle start (drop_text start s)

-- The braces of `s` with their positions, where `s` begins at position `k`.
unfoldable pub braces : ℕ → String → List (ℕ × Brace)
unfolding brace
braces k Text.String.[] = []
braces k (Text.String.◌∷◌ c s) =
    let rest = braces (suc k) s in elim (brace c) [ none ↦ rest | some b ↦ (k, b) ∷ rest ]

unfoldable pub reversed {ℓ} : {A : Type ℓ} → List A → List A
reversed [] = []
reversed (x ∷ xs) = reversed xs ++ x ∷ []

-- The loop over the reversed braces, with the two counts; none where it ends without a break.
unfoldable pub opening_position : ℕ → ℕ → List (ℕ × Brace) → Option ℕ
opening_position opening_count closing_count [] = none
opening_position opening_count closing_count ((k, opening) ∷ rest) =
    let later = opening_position (suc opening_count) closing_count rest in
    if suc opening_count == suc closing_count then some k else later
opening_position opening_count closing_count ((k, closing) ∷ rest) =
    let later = opening_position opening_count (suc closing_count) rest in
    if opening_count == suc (suc closing_count) then some k else later

-- The loop over the braces behind. Here an opening brace lowers `opening_count`, which starts at 0:
-- `fallen` is its negative, and the test `closing_count - opening_count == 1` is as below.
unfoldable pub closing_position : ℕ → ℕ → List (ℕ × Brace) → Option ℕ
closing_position fallen closing_count [] = none
closing_position fallen closing_count ((k, closing) ∷ rest) =
    let later = closing_position fallen (suc closing_count) rest in
    if suc closing_count + fallen == 1 then some k else later
closing_position fallen closing_count ((k, opening) ∷ rest) =
    let later = closing_position (suc fallen) closing_count rest in
    if closing_count + suc fallen == 1 then some k else later

-- The tests of the two positions, and the range.
unfoldable pub range_of : Option ℕ → Option ℕ → Option (ℕ × ℕ)
range_of none last = none
range_of (some first) none = none
range_of (some first) (some last) = some (first, last + 1)

-- `braces_before`, reversed, and `braces_after`
unfoldable pub reversed_before : String → ℕ → ℕ → List (ℕ × Brace)
unfolding braces reversed drop_text take_text
reversed_before s start loc = reversed (braces start (take_text (loc - start) (drop_text start s)))

unfoldable pub braces_after : String → ℕ → List (ℕ × Brace)
unfolding braces drop_text
braces_after s loc = braces loc (drop_text loc s)

unfoldable pub range_at : String → ℕ → ℕ → Option (ℕ × ℕ)
unfolding reversed_before braces_after opening_position closing_position range_of
range_at s start loc =
    range_of (opening_position 0 0 (reversed_before s start loc))
      (closing_position 0 0 (braces_after s loc))

-- None stands for (-1, -1).
unfoldable pub enclosing_table_range : String → String → ℕ → Option (ℕ × ℕ)
unfolding find range_at
enclosing_table_range s needle start = elim (find s needle start) [
  | none ↦ none
  | some loc ↦ range_at s start loc
]
