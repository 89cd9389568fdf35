-- ===== src/Fhicl/Tables.antt =====
-- rc/control/utilities.py, `table_range`: the range of a table with a given name.
use Prim.Native.Char.{Char, code}
use Prim.Native.String as Text
use artdaq_daqinterface.Prelude.{
  ℕ, zero, suc, ◌+◌, ◌-◌, ◌≤◌, ◌<◌, String, ◌≡◌, refl, inl, inr, Bool, true, false, Option, none,
  some, ◌==◌, if◌then◌else◌, Bool-cases, arith,
}
use artdaq_daqinterface.Fhicl.{Brace, opening, closing, brace, drop_text, find}

-- The searches by regular expression: the table that `name` is assigned from by `@local::`, and
-- whether the text begins with the name, a colon and an opening brace.
pub record TableSearches : Type 0 where
  pub original_table_name : String → String → Option String
  pub begins_table : String → String → Bool

-- `absent` stands for (-1, -1); `no_open_brace` for the ValueError of `index`; `out_of_fuel` is no
-- outcome of the program.
pub data TableRange : Type 0 where
  range : ℕ → ℕ → TableRange
  absent no_open_brace no_close_brace out_of_fuel : TableRange

-- The depth behind a character.
unfoldable pub braces_needed : Option Brace → ℕ → ℕ
braces_needed none n = n
braces_needed (some opening) n = n + 1
braces_needed (some closing) n = n - 1

-- The loop over the characters behind the opening brace, which counts them from `k`.
unfoldable pub close_brace_loc : ℕ → ℕ → String → Option ℕ
unfolding braces_needed
close_brace_loc needed k Text.String.[] = none
close_brace_loc needed k (Text.String.◌∷◌ c s) =
    let now = braces_needed (brace c) needed in
    let later = close_brace_loc now (suc k) s in if now == 0 then some k else later

-- The offsets of the recursive call's range are counted from `n`.
unfoldable pub shifted : ℕ → TableRange → TableRange
shifted n (range first last) = range (n + first) (n + last)
shifted n absent = absent
shifted n no_open_brace = no_open_brace
shifted n no_close_brace = no_close_brace
shifted n out_of_fuel = out_of_fuel

unfoldable pub closed_at : ℕ → ℕ → Option ℕ → TableRange
closed_at loc brace_loc none = no_close_brace
closed_at loc brace_loc (some i) = range loc (loc + brace_loc + 1 + i + 1)

unfoldable pub opened_at : String → ℕ → Option ℕ → TableRange
unfolding close_brace_loc closed_at drop_text
opened_at s loc none = no_open_brace
opened_at s loc (some brace_loc) =
    closed_at loc brace_loc (close_brace_loc 1 0 (drop_text (loc + brace_loc + 1) s))

module _ (re : TableSearches) where
  unfoldable pub table_range : ℕ → String → String → ℕ → TableRange
  unfolding find drop_text shifted opened_at
  table_range zero s name start = out_of_fuel
  table_range (suc fuel) s name start = elim (find s name start) [
    | none ↦ absent
    | some loc ↦ elim (re.original_table_name name (drop_text loc s)) [
      | some original ↦ table_range fuel s original 0
      | none ↦
          let further = table_range fuel (drop_text (loc + 1) s) name 0 in
          if re.begins_table name (drop_text loc s)
          then opened_at s loc (find (drop_text loc s) "{" 0)
          else shifted (loc + 1) further
    ]
  ]

-- The depth behind the first `i` characters, as the loop counts it.
abbrev depth_behind : ℕ → ℕ → String → ℕ
depth_behind zero needed s = needed
depth_behind (suc i) needed Text.String.[] = needed
depth_behind (suc i) needed (Text.String.◌∷◌ c s) =
    depth_behind i (braces_needed (brace c) needed) s

-- How many of the first `i` characters have this code; 123 is that of an opening brace, 125 that of a
-- closing one.
abbrev pub count_code : ℕ → ℕ → String → ℕ
count_code b zero s = 0
count_code b (suc i) Text.String.[] = 0
count_code b (suc i) (Text.String.◌∷◌ c s) = (if code c == b then 1 else 0) + count_code b i s

abbrev pub closings_before : ℕ → String → ℕ
closings_before i s = count_code 125 i s

abbrev pub openings_before : ℕ → String → ℕ
openings_before i s = count_code 123 i s

-- Behind an opening brace: with the character at `at_close` there is for the first time one closing
-- brace more than there are opening ones.
pub record IsClosing (s : String) (at_close : ℕ) : Type 0 where
  pub closed : closings_before (suc at_close) s ≡ 1 + openings_before (suc at_close) s
  pub open_before : (i : ℕ) → i ≤ at_close → closings_before i s ≤ openings_before i s

step_counts :
    (c : Char) (needed : ℕ)
    → 1 ≤ needed
    → braces_needed (brace c) needed + (if code c == 125 then 1 else 0)
      ≡ needed + (if code c == 123 then 1 else 0)
unfolding braces_needed brace
step_counts c needed inside = elim (Bool-cases (code c == 123)) [
  | inl opens ↦
      let other : (code c == 125) ≡ false = ground (arith, opens) in rw (opens, other) (omega arith)
  | inr otherwise ↦ elim (Bool-cases (code c == 125)) [
    | inl closes ↦ rw (otherwise, closes) (omega (arith, inside))
    | inr plain ↦ rw (otherwise, plain) refl
  ]
]

-- While the depth is positive, it is what the counts of the braces say.
depth_counts :
    (i needed : ℕ) (s : String)
    → ((j : ℕ) → j < i → 1 ≤ depth_behind j needed s)
    → depth_behind i needed s + closings_before i s ≡ needed + openings_before i s
depth_counts zero needed s inside = refl
depth_counts (suc i) needed Text.String.[] inside = refl
depth_counts (suc i) needed (Text.String.◌∷◌ c s) inside =
    let now = step_counts c needed (inside 0 (omega arith)) in
    let later =
      depth_counts i (braces_needed (brace c) needed) s
        (λ j less. inside (suc j) (omega (arith, less))) in
    omega (arith, now, later)

-- The character at position `at_close` is the first behind which the depth is 0.
record IsFirstAtZero (needed : ℕ) (s : String) (at_close : ℕ) : Type 0 where
  closed : depth_behind (suc at_close) needed s ≡ 0
  open_before : (i : ℕ) → i ≤ at_close → 1 ≤ depth_behind i needed s

never_more :
    (n : ℕ) (s : String)
    → ((i : ℕ) → i ≤ n → 1 ≤ depth_behind i 1 s)
    → closings_before n s ≤ openings_before n s
never_more n s inside =
    let counted = depth_counts n 1 s (λ j less. inside j (omega (arith, less))) in
    let here = inside n (omega arith) in omega (arith, counted, here)

IsFirstAtZero-IsClosing : (s : String) (i : ℕ) → IsFirstAtZero 1 s i → IsClosing s i
IsFirstAtZero-IsClosing s i r = record {
  closed =
      let counted = depth_counts (suc i) 1 s (λ j less. r.open_before j (omega (arith, less))) in
      let none_left = r.closed in omega (arith, counted, none_left);
  open_before = λ n le. never_more n s (λ j less. r.open_before j (omega (arith, le, less)));
}

close_brace_loc-IsFirstAtZero :
    (needed k : ℕ) (s : String) (loc : ℕ)
    → 1 ≤ needed
    → close_brace_loc needed k s ≡ some loc
    → (i : ℕ) × (loc ≡ k + i) × IsFirstAtZero needed s i
unfolding close_brace_loc
close_brace_loc-IsFirstAtZero needed k Text.String.[] loc inside h = cc
close_brace_loc-IsFirstAtZero needed k (Text.String.◌∷◌ c s) loc inside h =
    elim (Bool-cases (braces_needed (brace c) needed == 0)) [
      | inl here ↦
          let same : some k ≡ some loc = rw here at h in
          let there : k ≡ loc = cc in
          (0, omega (arith, there), record { closed = ground (arith, here); open_before = first })
      | inr later ↦
          let more : 1 ≤ braces_needed (brace c) needed = ground (arith, later) in
          let (i, e, r) =
            close_brace_loc-IsFirstAtZero (braces_needed (brace c) needed) (suc k) s loc more
              (rw later at h) in
          (
            suc i,
            omega (arith, e),
            record { closed = r.closed; open_before = further i r.open_before },
          )
    ]
  where
    first : (i : ℕ) → i ≤ 0 → 1 ≤ depth_behind i needed (Text.String.◌∷◌ c s)
    first zero le = inside
    first (suc i) le = absurd (omega (arith, le))

    further :
        (n : ℕ)
        → ((i : ℕ) → i ≤ n → 1 ≤ depth_behind i (braces_needed (brace c) needed) s)
        → (i : ℕ) → i ≤ suc n
        → 1 ≤ depth_behind i needed (Text.String.◌∷◌ c s)
    further n rest zero le = inside
    further n rest (suc i) le = rest i (omega (arith, le))

close_brace_loc-none :
    (needed k : ℕ) (s : String)
    → 1 ≤ needed
    → close_brace_loc needed k s ≡ none
    → (i : ℕ) → 1 ≤ depth_behind i needed s
unfolding close_brace_loc
close_brace_loc-none needed k s inside h zero = inside
close_brace_loc-none needed k Text.String.[] inside h (suc i) = inside
close_brace_loc-none needed k (Text.String.◌∷◌ c s) inside h (suc i) =
    elim (Bool-cases (braces_needed (brace c) needed == 0)) [
      | inl here ↦ absurd (cc (rw here at h))
      | inr later ↦
          close_brace_loc-none (braces_needed (brace c) needed) (suc k) s (ground (arith, later))
            (rw later at h) i
    ]

-- What `table_range` answers where a table of the name begins at `loc`.
pub data Answered (s : String) (loc : ℕ) : TableRange → Type 0 where
  closed_table :
      (brace_loc i : ℕ)
      → find (drop_text loc s) "{" 0 ≡ some brace_loc
      → IsClosing (drop_text (loc + brace_loc + 1) s) i
      → Answered s loc (range loc (loc + brace_loc + 1 + i + 1))
  unclosed_table :
      (brace_loc : ℕ)
      → find (drop_text loc s) "{" 0 ≡ some brace_loc
      → ((i : ℕ)
          → closings_before i (drop_text (loc + brace_loc + 1) s)
            ≤ openings_before i (drop_text (loc + brace_loc + 1) s))
      → Answered s loc no_close_brace
  unopened_table : find (drop_text loc s) "{" 0 ≡ none → Answered s loc no_open_brace

module _ (s : String) (loc : ℕ) where
  closed_at-Answered :
      (brace_loc : ℕ) (o : Option ℕ)
      → find (drop_text loc s) "{" 0 ≡ some brace_loc
      → close_brace_loc 1 0 (drop_text (loc + brace_loc + 1) s) ≡ o
      → Answered s loc (closed_at loc brace_loc o)
  unfolding closed_at
  closed_at-Answered brace_loc none there h =
      let body = drop_text (loc + brace_loc + 1) s in
      unclosed_table brace_loc there
        (λ i. never_more i body (λ j le. close_brace_loc-none 1 0 body (omega arith) h j))
  closed_at-Answered brace_loc (some j) there h =
      let body = drop_text (loc + brace_loc + 1) s in
      let (i, e, r) = close_brace_loc-IsFirstAtZero 1 0 body j (omega arith) h in
      let same : j ≡ i = omega (arith, e) in
      rw same (closed_table brace_loc i there (IsFirstAtZero-IsClosing body i r))

  opened_at-Answered :
      (o : Option ℕ) → find (drop_text loc s) "{" 0 ≡ o → Answered s loc (opened_at s loc o)
  unfolding opened_at
  opened_at-Answered none h = unopened_table h
  opened_at-Answered (some brace_loc) h =
      closed_at-Answered brace_loc (close_brace_loc 1 0 (drop_text (loc + brace_loc + 1) s)) h refl

-- Where the name is found and a table begins there, and it is not assigned from another table, the
-- answer is the range up to the brace that closes the table, the first one with which more braces are
-- closed than opened behind the table's own; that there is no such brace, where never more braces are
-- closed than opened; or the failed search for an opening brace.
pub table_range_answers :
    (re : TableSearches) (fuel : ℕ) (s name : String) (start loc : ℕ)
    → find s name start ≡ some loc
    → re.original_table_name name (drop_text loc s) ≡ none
    → re.begins_table name (drop_text loc s) ≡ true
    → Answered s loc (table_range re (suc fuel) s name start)
unfolding table_range
table_range_answers re fuel s name start loc there own begins =
    rw (there, own, begins, table_range)
      (opened_at-Answered s loc (find (drop_text loc s) "{" 0) refl)
