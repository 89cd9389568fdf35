-- ===== src/Fhicl/Enclosing.antt =====
-- rc/control/utilities.py, `enclosing_table_range`: where the range begins.
use Prim.Native.Char.{Char, code}
use Prim.Native.String as Text
use artdaq_daqinterface.Prelude.{
  ℕ, zero, suc, ◌+◌, ◌-◌, ◌≤◌, String, ◌≡◌, refl, sym, ap, subst, ◌∙◌, true, false, Option, none,
  some, List, [], ◌∷◌, ◌++◌, ◌==◌, arith,
}
use mathlib.Core.List.{append_assoc, append-nil}
use artdaq_daqinterface.Fhicl.{
  Brace, opening, closing, brace, braces, reversed, drop_text, take_text, opening_position,
  closing_position, range_of, reversed_before, braces_after, find, range_at, enclosing_table_range,
}
use artdaq_daqinterface.Fhicl.Places.{
  openings, closings, total, NeverOpen, openings-braces, closings-braces, openings-reversed,
  closings-reversed, reversed-reversed, reversed-split, braces-OpensAt,
}

-- Read backwards from depth `n`, the braces never go below it, and come back to depth 0.
abbrev Balanced : ℕ → List (ℕ × Brace) → Type 0
Balanced n [] = n ≡ 0
Balanced n ((k, closing) ∷ bs) = Balanced (suc n) bs
Balanced zero ((k, opening) ∷ bs) = Path ℕ 0 1
Balanced (suc n) ((k, opening) ∷ bs) = Balanced n bs

-- Behind the opening brace at `k` there are only closed tables.
record IsInnermost (n : ℕ) (backwards : List (ℕ × Brace)) (k : ℕ) : Type 0 where
  nested : List (ℕ × Brace)
  outside : List (ℕ × Brace)
  split : backwards ≡ nested ++ (k, opening) ∷ outside
  balanced : Balanced n nested

opening_position-IsInnermost :
    (o n : ℕ) (bs : List (ℕ × Brace)) (k : ℕ)
    → opening_position o (o + n) bs ≡ some k
    → IsInnermost n bs k
unfolding opening_position
opening_position-IsInnermost o n [] k h = cc
opening_position-IsInnermost o n ((j, closing) ∷ bs) k h =
    let no : (o == suc (suc (o + n))) ≡ false = ground arith in
    let same : suc (o + n) ≡ o + suc n = omega arith in
    let r = opening_position-IsInnermost o (suc n) bs k (rw same at rw no at h) in
    record {
      nested = (j, closing) ∷ r.nested;
      outside = r.outside;
      split = ap (λ l. (j, closing) ∷ l) r.split;
      balanced = r.balanced;
    }
opening_position-IsInnermost o zero ((j, opening) ∷ bs) k h =
    let yes : (suc o == suc (o + 0)) ≡ true = ground arith in
    let found : some j ≡ some k = rw yes at h in
    let same : j ≡ k = cc in
    record { nested = []; outside = bs; split = rw same refl; balanced = refl }
opening_position-IsInnermost o (suc n) ((j, opening) ∷ bs) k h =
    let no : (suc o == suc (o + suc n)) ≡ false = ground arith in
    let same : o + suc n ≡ suc o + n = omega arith in
    let r = opening_position-IsInnermost (suc o) n bs k (rw same at rw no at h) in
    record {
      nested = (j, opening) ∷ r.nested;
      outside = r.outside;
      split = ap (λ l. (j, opening) ∷ l) r.split;
      balanced = r.balanced;
    }

range_of-first :
    (o l : Option ℕ) (first last : ℕ) → range_of o l ≡ some (first, last) → o ≡ some first
unfolding range_of
range_of-first none l first last h = cc
range_of-first (some f) none first last h = cc
range_of-first (some f) (some l) first last h = cc

Balanced-prefix :
    (n : ℕ) (xs ys : List (ℕ × Brace)) → Balanced n (xs ++ ys) → openings xs ≤ n + closings xs
Balanced-prefix n [] ys h = omega arith
Balanced-prefix n ((k, closing) ∷ xs) ys h =
    let rest = Balanced-prefix (suc n) xs ys h in omega (arith, rest)
Balanced-prefix zero ((k, opening) ∷ xs) ys h = absurd (omega (arith, h))
Balanced-prefix (suc n) ((k, opening) ∷ xs) ys h =
    let rest = Balanced-prefix n xs ys h in omega (arith, rest)

Balanced-counts : (n : ℕ) (xs : List (ℕ × Brace)) → Balanced n xs → openings xs ≡ n + closings xs
Balanced-counts n [] h = omega (arith, h)
Balanced-counts n ((k, closing) ∷ xs) h =
    let rest = Balanced-counts (suc n) xs h in omega (arith, rest)
Balanced-counts zero ((k, opening) ∷ xs) h = absurd (omega (arith, h))
Balanced-counts (suc n) ((k, opening) ∷ xs) h =
    let rest = Balanced-counts n xs h in omega (arith, rest)

Balanced-NeverOpen :
    (k : ℕ) (s : String) (ys : List (ℕ × Brace))
    → Balanced 0 (reversed (braces k s) ++ ys)
    → NeverOpen s
unfolding braces reversed
Balanced-NeverOpen k Text.String.[] ys h = tt
Balanced-NeverOpen k (Text.String.◌∷◌ c s) ys h =
    (counted, option_case (brace c) (λ zs g. Balanced-NeverOpen (suc k) s zs g) h)
  where
    counted : total 123 (Text.String.◌∷◌ c s) ≤ total 125 (Text.String.◌∷◌ c s)
    counted =
        let bs = braces k (Text.String.◌∷◌ c s) in
        let fewer = Balanced-prefix 0 (reversed bs) ys h in
        let opens = openings-reversed bs ∙ openings-braces k (Text.String.◌∷◌ c s) in
        let closes = closings-reversed bs ∙ closings-braces k (Text.String.◌∷◌ c s) in
        omega (arith, fewer, opens, closes)

    option_case :
        (o : Option Brace)
        → ((zs : List (ℕ × Brace)) → Balanced 0 (reversed (braces (suc k) s) ++ zs) → NeverOpen s)
        → Balanced 0 (
            reversed (elim o [ none ↦ braces (suc k) s | some b ↦ (k, b) ∷ braces (suc k) s ])
            ++ ys)
        → NeverOpen s
    option_case none later g = later ys g
    option_case (some b) later g =
        later ((k, b) ∷ ys) (
          subst (λ l. Balanced 0 l) (append_assoc (reversed (braces (suc k) s)) ((k, b) ∷ []) ys) g)

-- The text between two positions, Python's `s[start:loc]`, has an opening brace at the position
-- `first` of the whole text; what is behind the brace closes as many braces as it opens, and no end of
-- it opens more than it closes.
pub record BeginsAround (s : String) (start loc first : ℕ) : Type 0 where
  pub offset : ℕ
  pub character : Char
  pub rest : String
  pub counted : first ≡ start + offset
  pub there :
      drop_text offset (take_text (loc - start) (drop_text start s))
      ≡ Text.String.◌∷◌ character rest
  pub is_opening : code character ≡ 123
  pub balanced : total 123 rest ≡ total 125 rest
  pub never_open : NeverOpen rest

begins_around :
    (s : String) (start loc first : ℕ)
    → IsInnermost 0 (reversed_before s start loc) first
    → BeginsAround s start loc first
unfolding reversed_before
begins_around s start loc first r =
    let before = take_text (loc - start) (drop_text start s) in
    let o =
      braces-OpensAt start before (reversed r.outside) first (reversed r.nested)
        (reversed-split (braces start before) r.nested (first, opening) r.outside r.split) in
    let same : r.nested ≡ reversed (braces (suc first) o.rest) =
      sym (reversed-reversed r.nested) ∙ ap (λ l. reversed l) o.braces_behind in
    let balance : Balanced 0 (reversed (braces (suc first) o.rest)) =
      subst (λ l. Balanced 0 l) same r.balanced in
    let bs = braces (suc first) o.rest in
    let counts = Balanced-counts 0 (reversed bs) balance in
    let opens = openings-reversed bs ∙ openings-braces (suc first) o.rest in
    let closes = closings-reversed bs ∙ closings-braces (suc first) o.rest in
    record {
      offset = o.offset;
      character = o.character;
      rest = o.rest;
      counted = o.counted;
      there = o.there;
      is_opening = o.is_opening;
      balanced = omega (arith, counts, opens, closes);
      never_open =
          Balanced-NeverOpen (suc first) o.rest []
            (subst (λ l. Balanced 0 l) (sym (append-nil (reversed bs))) balance);
    }

-- A range that is found begins at an opening brace of the text between the start and the text that is
-- searched for. Between this brace and the text that is searched for as many braces are closed as
-- opened, and from no place between them on more are opened than closed: it is the innermost brace
-- that is still open.
pub enclosing_begins-BeginsAround :
    (s needle : String) (start loc first last : ℕ)
    → find s needle start ≡ some loc
    → enclosing_table_range s needle start ≡ some (first, last)
    → BeginsAround s start loc first
unfolding enclosing_table_range range_at
enclosing_begins-BeginsAround s needle start loc first last there found =
    begins_around s start loc first (
      opening_position-IsInnermost 0 0 (reversed_before s start loc) first (
        range_of-first (opening_position 0 0 (reversed_before s start loc))
          (closing_position 0 0 (braces_after s loc)) first last
          (rw (there, enclosing_table_range) at found)))
