-- ===== src/Bookkeeping/Tables/Bounds.antt =====
-- rc/control/bookkeeping.py, `calculate_max_event_size`: bounds on the sizes.
use artdaq_daqinterface.Prelude.{
  ℕ, ◌+◌, ◌%◌, ◌≤◌, String, ◌=ₛ◌ as ◌==◌, ◌≡◌, inl, inr, true, some, List, Dict, isin, lookup,
  arith, eq_iff, Bool-cases,
}
use artdaq_daqinterface.Bookkeeping.Errors.{ok, >>=-ok, at_key}
use artdaq_daqinterface.Bookkeeping.Graph.{Subsystem}
use artdaq_daqinterface.Bookkeeping.Memo.Meaning.{
  Value, Sums, value, done, skipped, added, called, Value-unique,
}
use artdaq_daqinterface.Bookkeeping.Readers.{Settings, ReaderTables}
use artdaq_daqinterface.Bookkeeping.Tables.{max_event_size, round_to_words, minimum_event_size}

round_to_words-mod : (n : ℕ) → round_to_words n % 8 ≡ 0
unfolding round_to_words
round_to_words-mod n = ground arith

module _ (settings : Settings) (scaled : ℕ → ℕ) (g : Dict Subsystem) (readers : ReaderTables) where
  abbrev Own : String → ℕ → Type 0
  Own = Value (max_event_size g readers settings scaled) g

  abbrev Adds : String → List String → ℕ → ℕ → Type 0
  Adds = Sums (max_event_size g readers settings scaled) g

  start_mod :
      (ss : String) (a : ℕ)
      → settings.advanced_memory_usage ≡ true
      → (max_event_size g readers settings scaled).start ss ≡ ok a
      → a % 8 ≡ 0
  unfolding max_event_size
  start_mod ss a adv e =
      let (size, at, rest) = >>=-ok (at_key readers.space ss) _ e in
      let same : round_to_words (scaled size) ≡ a = cc (rw adv at rest) in
      rw (← same) (round_to_words-mod (scaled size))

  mutual
    unfolding max_event_size

    Own-mod : {ss : String} {v : ℕ} → settings.advanced_memory_usage ≡ true → Own ss v → v % 8 ≡ 0
    Own-mod {ss} adv (value sub a b at started sums is) =
        let even : b % 8 ≡ 0 = Adds-mod adv sums (start_mod ss a adv started) in
        rw is (ground arith)

    Adds-mod :
        {ss : String} {ts : List String} {a b : ℕ}
        → settings.advanced_memory_usage ≡ true
        → Adds ss ts a b
        → a % 8 ≡ 0
        → b % 8 ≡ 0
    Adds-mod adv done h = h
    Adds-mod adv (skipped p s) h = cc
    Adds-mod adv (added x p s) h = cc
    Adds-mod adv (called x p v s) h =
        let own : x % 8 ≡ 0 = Own-mod adv v in Adds-mod adv s (omega arith)

  Adds-le : {ss : String} {ts : List String} {a b : ℕ} → Adds ss ts a b → a ≤ b
  unfolding max_event_size
  Adds-le done = omega arith
  Adds-le (skipped p s) = cc
  Adds-le (added x p s) = cc
  Adds-le (called x p v s) = omega (arith, Adds-le s)

  -- The sum has a value of each of the sources in it.
  Adds-source :
      {ss t : String} {ts : List String} {a b : ℕ}
      → Adds ss ts a b
      → isin t ts ≡ true
      → (w : ℕ) × Own t w × (a + w ≤ b)
  unfolding max_event_size isin
  Adds-source done h = absurd (cc)
  Adds-source (skipped p s) h = cc
  Adds-source (added x p s) h = cc
  Adds-source {t} (called {t = u} x p v s) h = elim (Bool-cases (u == t)) [
    | inl e ↦ (x, rw (← (eq_iff u t).0 e) v, Adds-le s)
    | inr e ↦ let (w, val, le) = Adds-source s (rw e at h) in (w, val, omega arith)
  ]

  -- The maximal event size of a subsystem is at least 10240 and at least that of each of its sources;
  -- with advanced memory usage it is a number of 8-byte words.
  pub max_event_size_bounds :
      (ss : String) (v : ℕ)
      → Own ss v
      → (minimum_event_size ≤ v)
        × ((sub : Subsystem) (t : String) (w : ℕ)
            → lookup ss g ≡ some sub
            → isin t sub.sources ≡ true
            → Own t w
            → w ≤ v)
        × (settings.advanced_memory_usage ≡ true → v % 8 ≡ 0)
  max_event_size_bounds ss v (value sub a b at started sums is) = (
    least b v is,
    λ sub' t w at' listed val.
        let same : sub' ≡ sub = cc (at, at') in
        let (w', val', le) = Adds-source sums (rw same at listed) in
        let eq : w ≡ w' = Value-unique _ g val val' in rw eq (above b v w' a is le),
    λ adv. Own-mod adv (value sub a b at started sums is),
  )
    where
      least :
          (b v : ℕ)
          → v ≡ (max_event_size g readers settings scaled).finish b
          → minimum_event_size ≤ v
      least b v e = unfold max_event_size in ground arith

      above :
          (b v w a : ℕ)
          → v ≡ (max_event_size g readers settings scaled).finish b
          → a + w ≤ b
          → w ≤ v
      above b v w a e le = unfold max_event_size in ground arith
