-- ===== src/Bookkeeping/Tables/Right.antt =====
-- rc/control/bookkeeping.py: the tables hold the values of the three recursive calculations.
use artdaq_daqinterface.Prelude.{
  ℕ, String, ◌=ₛ◌ as ◌==◌, ◌≡◌, ◌⊎◌, inl, inr, true, some, List, [], ◌∷◌, Dict, isin, has, lookup,
  insert, keys, arith, eq_iff, eq_refl, Bool-cases, has-lookup, has-insert,
}
use artdaq_daqinterface.Bookkeeping.Errors.{Result, ok, >>=-ok}
use artdaq_daqinterface.Bookkeeping.Graph.{
  Subsystem, Search, clear, found, failed, find_cycle_in_subsystem_graph,
}
use artdaq_daqinterface.Bookkeeping.Graph.Grounded.{isin-keys}
use artdaq_daqinterface.Bookkeeping.Memo.{Calculation, calculate}
use artdaq_daqinterface.Bookkeeping.Memo.Meaning.{Value, IsSound, calculate-Value, insert-IsSound}
use artdaq_daqinterface.Bookkeeping.Readers.{Settings, ReaderTables}
use artdaq_daqinterface.Bookkeeping.Tables.{
  FragmentId, expected_fragments_per_event, max_event_size, subsystem_fragment_ids, Tables,
  no_tables, fill_tables, unless_cycle, calculate_tables,
}

module _ (g : Dict Subsystem) (count size : Calculation ℕ)
    (ids : Calculation (List FragmentId)) where
  -- Every entry of the three dictionaries is a value of its subsystem.
  pub record AllSound (t : Tables) : Type 0 where
    pub counts : IsSound count g t.expected
    pub sizes : IsSound size g t.sizes
    pub idents : IsSound ids g t.fragment_ids

  pub record Covers (t : Tables) (ss : String) : Type 0 where
    pub counts : has ss t.expected ≡ true
    pub sizes : has ss t.sizes ≡ true
    pub idents : has ss t.fragment_ids ≡ true

  no_tables-AllSound : AllSound no_tables
  unfolding lookup
  no_tables-AllSound = record {
    counts = λ ss v h. absurd (cc);
    sizes = λ ss v h. absurd (cc);
    idents = λ ss v h. absurd (cc);
  }

module _ {V : Type 0} where
  has-insert_self : (k : String) (v : V) (m : Dict V) → has k (insert k v m) ≡ true
  has-insert_self k v m = rw (has-insert, eq_refl)

  has-insert_later :
      (k j : String) (v : V) (m : Dict V) → has j m ≡ true → has j (insert k v m) ≡ true
  has-insert_later k j v m h = ground (arith, has-insert k j v m)

module _ (fuel : ℕ) (g : Dict Subsystem) (count size : Calculation ℕ)
    (ids : Calculation (List FragmentId)) where
  fill_tables-AllSound :
      (order : List String) (caches t r : Tables)
      → AllSound g count size ids caches
      → AllSound g count size ids t
      → fill_tables fuel g count size ids order caches t ≡ ok r
      → AllSound g count size ids r
        × ((ss : String)
            → (isin ss order ≡ true) ⊎ Covers g count size ids t ss
            → Covers g count size ids r ss)
  unfolding fill_tables isin
  fill_tables-AllSound [] caches t r good sound e =
      let same : t ≡ r = cc in
      rw (← same) (sound, λ ss h. elim h [ inl i ↦ absurd (cc) | inr covers ↦ covers ])
  fill_tables-AllSound (ss ∷ rest) caches t r good sound e =
      let (r₁, e₁, f₁) = >>=-ok (calculate count fuel g ss caches.expected) _ e in
      let (r₂, e₂, f₂) = >>=-ok (calculate size fuel g ss caches.sizes) _ f₁ in
      let (r₃, e₃, f₃) = >>=-ok (calculate ids fuel g ss caches.fragment_ids) _ f₂ in
      let (v₁, g₁) = calculate-Value count g fuel ss caches.expected r₁ good.counts e₁ in
      let (v₂, g₂) = calculate-Value size g fuel ss caches.sizes r₂ good.sizes e₂ in
      let (v₃, g₃) = calculate-Value ids g fuel ss caches.fragment_ids r₃ good.idents e₃ in
      let (all, covers) =
        fill_tables-AllSound rest _ _ r (record { counts = g₁; sizes = g₂; idents = g₃ })
          (record {
            counts = insert-IsSound count g ss r₁.0 t.expected v₁ sound.counts;
            sizes = insert-IsSound size g ss r₂.0 t.sizes v₂ sound.sizes;
            idents = insert-IsSound ids g ss r₃.0 t.fragment_ids v₃ sound.idents;
          })
          f₃ in
      (
        all,
        λ u h. covers u (elim h [
          | inl i ↦ elim (Bool-cases (ss == u)) [
            | inl same ↦ inr (
                rw (← (eq_iff ss u).0 same) (record {
                  counts = has-insert_self ss r₁.0 t.expected;
                  sizes = has-insert_self ss r₂.0 t.sizes;
                  idents = has-insert_self ss r₃.0 t.fragment_ids;
                }))
            | inr other ↦ inl (rw other at i)
          ]
          | inr c ↦ inr (record {
            counts = has-insert_later ss u r₁.0 t.expected c.counts;
            sizes = has-insert_later ss u r₂.0 t.sizes c.sizes;
            idents = has-insert_later ss u r₃.0 t.fragment_ids c.idents;
          })
        ]),
      )

unless_cycle-ok :
    (search : Search) (rest : Result Tables) {t : Tables}
    → unless_cycle search rest ≡ ok t
    → rest ≡ ok t
unfolding unless_cycle
unless_cycle-ok (clear m) rest e = e
unless_cycle-ok (found path) rest e = cc
unless_cycle-ok (failed x) rest e = cc

-- What the tables hold for a subsystem: the values of the calculations without their caches.
pub record Holds (settings : Settings) (scaled : ℕ → ℕ) (g : Dict Subsystem)
    (readers : ReaderTables) (t : Tables) (ss : String) : Type 0 where
  pub count : ℕ
  pub size : ℕ
  pub idents : List FragmentId
  pub count_at : lookup ss t.expected ≡ some count
  pub size_at : lookup ss t.sizes ≡ some size
  pub idents_at : lookup ss t.fragment_ids ≡ some idents
  pub count_right : Value (expected_fragments_per_event g readers) g ss count
  pub size_right : Value (max_event_size g readers settings scaled) g ss size
  pub idents_right : Value (subsystem_fragment_ids g readers) g ss idents

-- Where the calculation returns tables, they have each subsystem's expected number of fragments,
-- maximal event size and fragment ids, as the recursion through the sources gives them with no cache.
pub calculate_tables-Holds :
    (settings : Settings) (scaled : ℕ → ℕ) (g : Dict Subsystem) (fuel : ℕ) (readers : ReaderTables)
    (t : Tables) (ss : String)
    → calculate_tables settings scaled g fuel readers ≡ ok t
    → has ss g ≡ true
    → Holds settings scaled g readers t ss
unfolding calculate_tables
calculate_tables-Holds settings scaled g fuel readers t ss e known =
    let count = expected_fragments_per_event g readers in
    let size = max_event_size g readers settings scaled in
    let ids = subsystem_fragment_ids g readers in
    let filled = fill_tables fuel g count size ids (keys g) no_tables no_tables in
    let start = no_tables-AllSound g count size ids in
    let (sound, covers) =
      fill_tables-AllSound fuel g count size ids (keys g) no_tables no_tables t start start
        (unless_cycle-ok (find_cycle_in_subsystem_graph g) filled e) in
    let covered = covers ss (inl (rw isin-keys known)) in
    let (n, n_at) = has-lookup ss t.expected covered.counts in
    let (s, s_at) = has-lookup ss t.sizes covered.sizes in
    let (l, l_at) = has-lookup ss t.fragment_ids covered.idents in
    record {
      count = n;
      size = s;
      idents = l;
      count_at = n_at;
      size_at = s_at;
      idents_at = l_at;
      count_right = sound.counts ss n n_at;
      size_right = sound.sizes ss s s_at;
      idents_right = sound.idents ss l l_at;
    }
