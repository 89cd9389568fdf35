-- ===== src/Fhicl/Places.antt =====
-- rc/control/utilities.py: where the braces of a text stand, and how many there are of each kind.
use Prim.Native.Char.{Char, code}
use Prim.Native.String as Text
use artdaq_daqinterface.Prelude.{
  ℕ, suc, ◌+◌, ◌≤◌, String, ◌≡◌, refl, sym, ap, ◌∙◌, inl, inr, false, List, [], ◌∷◌, ◌++◌, ◌==◌,
  if◌then◌else◌, Bool-cases, arith,
}
use mathlib.Core.List.{append_assoc, append-nil}
use artdaq_daqinterface.Fhicl.{Brace, opening, closing, brace, drop_text, braces, reversed}

abbrev pub openings : List (ℕ × Brace) → ℕ
openings [] = 0
openings ((k, opening) ∷ bs) = 1 + openings bs
openings ((k, closing) ∷ bs) = openings bs

abbrev pub closings : List (ℕ × Brace) → ℕ
closings [] = 0
closings ((k, opening) ∷ bs) = closings bs
closings ((k, closing) ∷ bs) = 1 + closings bs

-- How many characters of a text have this code; 123 is that of an opening brace, 125 that of a closing
-- one.
abbrev pub total : ℕ → String → ℕ
total b Text.String.[] = 0
total b (Text.String.◌∷◌ c s) = (if code c == b then 1 else 0) + total b s

-- No end of the text opens more braces than it closes.
abbrev pub NeverOpen : String → Type 0
NeverOpen Text.String.[] = Unit
NeverOpen (Text.String.◌∷◌ c s) =
    (total 123 (Text.String.◌∷◌ c s) ≤ total 125 (Text.String.◌∷◌ c s)) × NeverOpen s

pub openings-braces : (k : ℕ) (s : String) → openings (braces k s) ≡ total 123 s
unfolding braces brace
openings-braces k Text.String.[] = refl
openings-braces k (Text.String.◌∷◌ c s) = elim (Bool-cases (code c == 123)) [
  | inl opens ↦ rw (opens, braces, brace) (ap (λ n. 1 + n) (openings-braces (suc k) s))
  | inr otherwise ↦ elim (Bool-cases (code c == 125)) [
    | inl closes ↦
        rw (otherwise, closes, braces, brace)
          (let r = openings-braces (suc k) s in omega (arith, r))
    | inr plain ↦
        rw (otherwise, plain, braces, brace) (let r = openings-braces (suc k) s in omega (arith, r))
  ]
]

pub closings-braces : (k : ℕ) (s : String) → closings (braces k s) ≡ total 125 s
unfolding braces brace
closings-braces k Text.String.[] = refl
closings-braces k (Text.String.◌∷◌ c s) = elim (Bool-cases (code c == 123)) [
  | inl opens ↦
      let other : (code c == 125) ≡ false = ground (arith, opens) in
      rw (opens, other, braces, brace) (let r = closings-braces (suc k) s in omega (arith, r))
  | inr otherwise ↦ elim (Bool-cases (code c == 125)) [
    | inl closes ↦
        rw (otherwise, closes, braces, brace) (ap (λ n. 1 + n) (closings-braces (suc k) s))
    | inr plain ↦
        rw (otherwise, plain, braces, brace) (let r = closings-braces (suc k) s in omega (arith, r))
  ]
]

openings-append : (xs ys : List (ℕ × Brace)) → openings (xs ++ ys) ≡ openings xs + openings ys
openings-append [] ys = omega arith
openings-append ((k, opening) ∷ xs) ys = let rest = openings-append xs ys in omega (arith, rest)
openings-append ((k, closing) ∷ xs) ys = openings-append xs ys

closings-append : (xs ys : List (ℕ × Brace)) → closings (xs ++ ys) ≡ closings xs + closings ys
closings-append [] ys = omega arith
closings-append ((k, opening) ∷ xs) ys = closings-append xs ys
closings-append ((k, closing) ∷ xs) ys = let rest = closings-append xs ys in omega (arith, rest)

pub openings-reversed : (xs : List (ℕ × Brace)) → openings (reversed xs) ≡ openings xs
unfolding reversed
openings-reversed [] = refl
openings-reversed ((k, opening) ∷ xs) =
    let rest = openings-reversed xs in
    let split = openings-append (reversed xs) ((k, opening) ∷ []) in omega (arith, rest, split)
openings-reversed ((k, closing) ∷ xs) =
    let rest = openings-reversed xs in
    let split = openings-append (reversed xs) ((k, closing) ∷ []) in omega (arith, rest, split)

pub closings-reversed : (xs : List (ℕ × Brace)) → closings (reversed xs) ≡ closings xs
unfolding reversed
closings-reversed [] = refl
closings-reversed ((k, opening) ∷ xs) =
    let rest = closings-reversed xs in
    let split = closings-append (reversed xs) ((k, opening) ∷ []) in omega (arith, rest, split)
closings-reversed ((k, closing) ∷ xs) =
    let rest = closings-reversed xs in
    let split = closings-append (reversed xs) ((k, closing) ∷ []) in omega (arith, rest, split)

reversed-append : (xs ys : List (ℕ × Brace)) → reversed (xs ++ ys) ≡ reversed ys ++ reversed xs
unfolding reversed
reversed-append [] ys = sym (append-nil (reversed ys))
reversed-append (x ∷ xs) ys =
    ap (λ l. l ++ x ∷ []) (reversed-append xs ys)
    ∙ append_assoc (reversed ys) (reversed xs) (x ∷ [])

pub reversed-reversed : (xs : List (ℕ × Brace)) → reversed (reversed xs) ≡ xs
unfolding reversed
reversed-reversed [] = refl
reversed-reversed (x ∷ xs) =
    reversed-append (reversed xs) (x ∷ []) ∙ ap (λ l. x ∷ l) (reversed-reversed xs)

-- A brace in the reversed list, with what is on its two sides, in the list itself.
pub reversed-split :
    (bs nested : List (ℕ × Brace)) (x : ℕ × Brace) (outside : List (ℕ × Brace))
    → reversed bs ≡ nested ++ x ∷ outside
    → bs ≡ reversed outside ++ x ∷ reversed nested
unfolding reversed
reversed-split bs nested x outside e =
    sym (reversed-reversed bs)
    ∙ ap (λ l. reversed l) e
    ∙ reversed-append nested (x ∷ outside)
    ∙ append_assoc (reversed outside) (x ∷ []) (reversed nested)

-- An opening brace at a position of a text, where the text begins at position `k`.
pub record OpensAt (k : ℕ) (s : String) (p : ℕ) (after : List (ℕ × Brace)) : Type 0 where
  pub offset : ℕ
  pub character : Char
  pub rest : String
  pub counted : p ≡ k + offset
  pub there : drop_text offset s ≡ Text.String.◌∷◌ character rest
  pub is_opening : code character ≡ 123
  pub braces_behind : after ≡ braces (suc p) rest

later-OpensAt :
    (c : Char) (k : ℕ) (s : String) (p : ℕ) (after : List (ℕ × Brace))
    → OpensAt (suc k) s p after
    → OpensAt k (Text.String.◌∷◌ c s) p after
unfolding drop_text
later-OpensAt c k s p after o = record {
  offset = suc o.offset;
  character = o.character;
  rest = o.rest;
  counted = let counted = o.counted in omega (arith, counted);
  there = o.there;
  is_opening = o.is_opening;
  braces_behind = o.braces_behind;
}

pub braces-OpensAt :
    (k : ℕ) (s : String) (before : List (ℕ × Brace)) (p : ℕ) (after : List (ℕ × Brace))
    → braces k s ≡ before ++ (p, opening) ∷ after
    → OpensAt k s p after
unfolding braces brace drop_text
braces-OpensAt k Text.String.[] [] p after e = cc
braces-OpensAt k Text.String.[] (b ∷ before) p after e = cc
braces-OpensAt k (Text.String.◌∷◌ c s) before p after e =
    let again = λ (before' : List (ℕ × Brace)). braces-OpensAt (suc k) s before' p after in
    elim (Bool-cases (code c == 123)) [
      | inl opens ↦ first before (rw (opens, braces, brace) at e) again (ground (arith, opens))
      | inr otherwise ↦ elim (Bool-cases (code c == 125)) [
        | inl closes ↦ passed before (rw (otherwise, closes, braces, brace) at e) again
        | inr plain ↦
            later-OpensAt c k s p after (again before (rw (otherwise, plain, braces, brace) at e))
      ]
    ]
  where
    first :
        (before : List (ℕ × Brace))
        → (k, opening) ∷ braces (suc k) s ≡ before ++ (p, opening) ∷ after
        → ((before' : List (ℕ × Brace))
            → braces (suc k) s ≡ before' ++ (p, opening) ∷ after
            → OpensAt (suc k) s p after)
        → code c ≡ 123
        → OpensAt k (Text.String.◌∷◌ c s) p after
    first [] e again is_opening =
        let here : k ≡ p = cc in
        let behind : braces (suc k) s ≡ after = cc in
        record {
          offset = 0;
          character = c;
          rest = s;
          counted = omega (arith, here);
          there = refl;
          is_opening = is_opening;
          braces_behind = sym behind ∙ ap (λ n. braces (suc n) s) here;
        }
    first (b ∷ before) e again is_opening = later-OpensAt c k s p after (again before (cc))

    passed :
        (before : List (ℕ × Brace))
        → (k, closing) ∷ braces (suc k) s ≡ before ++ (p, opening) ∷ after
        → ((before' : List (ℕ × Brace))
            → braces (suc k) s ≡ before' ++ (p, opening) ∷ after
            → OpensAt (suc k) s p after)
        → OpensAt k (Text.String.◌∷◌ c s) p after
    passed [] e again = cc
    passed (b ∷ before) e again = later-OpensAt c k s p after (again before (cc))
