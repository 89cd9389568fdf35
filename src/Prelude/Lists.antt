-- ===== src/Prelude/Lists.antt =====
-- Lists measured by native numbers, under the library's names, and membership as a test.
use Prim.Native.Nat.{ℕ, suc, ◌+◌}
use Prim.Native.String.{String}
use mathlib.Core.Path.{◌≡◌}
use mathlib.Core.Bool.{Bool, true, false, ◌||◌}
use mathlib.Core.List.{List, [], ◌∷◌, ◌++◌}
use native.Mathlib.Omega.{arith}
use text.Mathlib.Text.{◌==◌}
use text.Mathlib.TextEquality.{eq_iff}
use artdaq_daqinterface.Prelude.Tests.{if◌then◌else◌}

module _ {ℓ} {A : Type ℓ} where
  abbrev pub length : List A → ℕ
  length [] = 0
  length (x ∷ xs) = suc (length xs)

  pub length-append : (xs ys : List A) → length (xs ++ ys) ≡ length xs + length ys
  length-append [] ys = omega arith
  length-append (x ∷ xs) ys = omega (arith, length-append xs ys)

  -- `[x for x in xs if test]`
  unfoldable pub select : (A → Bool) → List A → List A
  select test [] = []
  select test (x ∷ xs) = let rest = select test xs in if test x then x ∷ rest else rest

-- Python's `x in xs`, for a list or a set of texts.
unfoldable pub isin : String → List String → Bool
isin x [] = false
isin x (y ∷ ys) = y == x || isin x ys

-- No text is in the list twice.
abbrev pub IsDistinct : List String → Type 0
IsDistinct [] = Unit
IsDistinct (x ∷ xs) = (isin x xs ≡ false) × IsDistinct xs

-- `set.discard`.
unfoldable pub discard : String → List String → List String
discard x [] = []
discard x (y ∷ ys) = if y == x then discard x ys else y ∷ discard x ys

pub isin-discard :
    (w x : String) (xs : List String)
    → isin w (discard x xs) ≡ (if x == w then false else isin w xs)
unfolding isin discard
isin-discard w x [] = ground arith
isin-discard w x (y ∷ ys) = ground (arith, eq_iff y x, eq_iff x w, eq_iff y w, isin-discard w x ys)

pub isin_later : (u t : String) (ts : List String) → isin u ts ≡ true → isin u (t ∷ ts) ≡ true
unfolding isin
isin_later u t ts h = ground arith
