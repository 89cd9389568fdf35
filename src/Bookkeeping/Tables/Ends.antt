-- ===== src/Bookkeeping/Tables/Ends.antt =====
-- rc/control/bookkeeping.py: when the tables are calculated, and when an exception is raised.
use artdaq_daqinterface.Prelude.{
  ℕ, ◌+◌, ◌≤◌, String, ◌=ₛ◌ as ◌==◌, ◌≡◌, refl, ◌⊎◌, inl, inr, true, false, List, [], ◌∷◌, Dict,
  isin, has, insert, keys, length, arith, eq_refl, Bool-cases, isin_later, has-lookup, map,
  if◌then◌else◌,
}
use artdaq_daqinterface.Bookkeeping.Errors.{ok, err, circular, lookup-at_key}
use artdaq_daqinterface.Bookkeeping.Graph.{Subsystem}
use artdaq_daqinterface.Bookkeeping.Graph.Grounded.{isin-keys}
use artdaq_daqinterface.Bookkeeping.Graph.Cycle.{IsCycle}
use artdaq_daqinterface.Bookkeeping.Graph.Verdict.{find_cycle_decides}
use artdaq_daqinterface.Bookkeeping.Memo.{Calculation, calculate, skip, known_value, recurse}
use artdaq_daqinterface.Bookkeeping.Memo.Total.{
  IsClosed, IsDefined, Returns, all-Enough, Grounded-Enough,
}
use artdaq_daqinterface.Bookkeeping.Readers.{
  Patterns, Settings, ReaderTables, add_readers, empty_tables,
}
use artdaq_daqinterface.Bookkeeping.Readers.Full.{IsFull, Belong, add_readers_fill}
use artdaq_daqinterface.Bookkeeping.Tables.Right.{Holds, calculate_tables-Holds}
use artdaq_daqinterface.Procinfo.{Procinfo}
use artdaq_daqinterface.Bookkeeping.Tables.{
  FragmentId, reader, of_subsystem, expected_fragments_per_event, max_event_size, round_to_words,
  subsystem_fragment_ids, Tables, no_tables, fill_tables, unless_cycle, calculate_tables,
  read_boardreaders, subsystem_tables,
}

module _ (g : Dict Subsystem) (readers : ReaderTables) (full : IsFull g readers) where
  expected-IsDefined : IsDefined (expected_fragments_per_event g readers) g
  unfolding expected_fragments_per_event
  expected-IsDefined = record {
    starts = λ ss h.
        let (l, at) = has-lookup ss readers.ids (full.idents ss h) in
        (length l, rw (lookup-at_key readers.ids ss l at));
    plans = λ ss t h. elim (Bool-cases (t == ss)) [
      | inl same ↦ (skip, rw same)
      | inr other ↦
          let (sub, at) = has-lookup t g h in
          (
            if sub.fragment_mode then recurse else known_value 1,
            rw (other, lookup-at_key g t sub at),
          )
    ];
  }

  sizes-IsDefined :
      (settings : Settings) (scaled : ℕ → ℕ)
      → IsDefined (max_event_size g readers settings scaled) g
  unfolding max_event_size
  sizes-IsDefined settings scaled = record {
    starts = λ ss h.
        let (s, at) = has-lookup ss readers.space (full.spaces ss h) in
        (
          if settings.advanced_memory_usage then round_to_words (scaled s) else s,
          rw (lookup-at_key readers.space ss s at),
        );
    plans = λ ss t h. (recurse, refl);
  }

  idents-IsDefined : IsDefined (subsystem_fragment_ids g readers) g
  unfolding subsystem_fragment_ids
  idents-IsDefined = record {
    starts = λ ss h.
        let (l, at) = has-lookup ss readers.ids (full.idents ss h) in
        (map reader l, rw (lookup-at_key readers.ids ss l at));
    plans = λ ss t h.
        let (sub, at) = has-lookup t g h in
        (
          if sub.fragment_mode then recurse else known_value (of_subsystem t ∷ []),
          rw (lookup-at_key g t sub at),
        );
  }

module _ (fuel : ℕ) (g : Dict Subsystem) (count size : Calculation ℕ)
    (ids : Calculation (List FragmentId)) where
  fill_tables-ok :
      (order : List String) (caches t : Tables)
      → ((ss : String) → isin ss order ≡ true → Returns (calculate count fuel g ss))
      → ((ss : String) → isin ss order ≡ true → Returns (calculate size fuel g ss))
      → ((ss : String) → isin ss order ≡ true → Returns (calculate ids fuel g ss))
      → (r : Tables) × (fill_tables fuel g count size ids order caches t ≡ ok r)
  unfolding fill_tables isin
  fill_tables-ok [] caches t c s i = (t, refl)
  fill_tables-ok (ss ∷ rest) caches t c s i =
      let here : isin ss (ss ∷ rest) ≡ true = rw eq_refl in
      let (r₁, e₁) = c ss here caches.expected in
      let (r₂, e₂) = s ss here caches.sizes in
      let (r₃, e₃) = i ss here caches.fragment_ids in
      let (r, e) =
        fill_tables-ok rest (record { expected = r₁.1; sizes = r₂.1; fragment_ids = r₃.1 })
          (record {
            expected = insert ss r₁.0 t.expected;
            sizes = insert ss r₂.0 t.sizes;
            fragment_ids = insert ss r₃.0 t.fragment_ids;
          })
          (λ u h. c u (isin_later u ss rest h)) (λ u h. s u (isin_later u ss rest h))
          (λ u h. i u (isin_later u ss rest h)) in
      (r, rw (e₁, e₂, e₃) e)

-- With every source a subsystem and an entry for each subsystem in the readers' tables: the search
-- finds no cycle and from some depth of recursion on the tables are calculated, or the exception
-- about a circular dependency is raised, and it names a cycle.
pub calculate_tables_ends :
    (settings : Settings) (scaled : ℕ → ℕ) (g : Dict Subsystem) (readers : ReaderTables)
    → IsClosed g
    → IsFull g readers
    → ((n : ℕ) × ((fuel : ℕ)
          → n ≤ fuel
          → (t : Tables) × (calculate_tables settings scaled g fuel readers ≡ ok t)))
      ⊎ ((path : List String) × IsCycle g path
          × ((fuel : ℕ) → calculate_tables settings scaled g fuel readers ≡ err (circular path)))
unfolding calculate_tables unless_cycle
calculate_tables_ends settings scaled g readers shut full = elim (find_cycle_decides g) [
  | inl a ↦
      let e = a.returned in
      let grounded = a.ends in
      let count = expected_fragments_per_event g readers in
      let size = max_event_size g readers settings scaled in
      let ids = subsystem_fragment_ids g readers in
      let known = λ (ss : String) (h : isin ss (keys g) ≡ true). is_known ss h in
      let (a, counts) =
        all-Enough count g shut (expected-IsDefined g readers full) (keys g) (λ ss h.
          Grounded-Enough count g shut (expected-IsDefined g readers full) ss (known ss h)
            (grounded ss (known ss h))) in
      let (b, sizes) =
        all-Enough size g shut (sizes-IsDefined g readers full settings scaled) (keys g) (λ ss h.
          Grounded-Enough size g shut (sizes-IsDefined g readers full settings scaled) ss
            (known ss h) (grounded ss (known ss h))) in
      let (c, idents) = all-Enough ids g shut (idents-IsDefined g readers full) (keys g) (λ ss h.
        Grounded-Enough ids g shut (idents-IsDefined g readers full) ss (known ss h)
          (grounded ss (known ss h))) in
      inl (
        a + b + c,
        λ fuel h. rw e (
            fill_tables-ok fuel g count size ids (keys g) no_tables no_tables
              (counts fuel (omega arith)) (sizes fuel (omega arith)) (idents fuel (omega arith))),
      )
  | inr c ↦ let e = c.returned in inr (c.path, c.cycle, λ fuel. rw e)
]
  where
    is_known : (ss : String) → isin ss (keys g) ≡ true → has ss g ≡ true
    is_known ss h = rw (← isin-keys ss g) h

read_boardreaders-uniform :
    (re : Patterns) (settings : Settings) (g : Dict Subsystem) (procinfos : List Procinfo)
    {readers : ReaderTables}
    → settings.advanced_memory_usage ≡ false
    → add_readers re settings [] procinfos (empty_tables g) ≡ ok readers
    → read_boardreaders re settings g procinfos ≡ ok readers
unfolding read_boardreaders
read_boardreaders-uniform re settings g procinfos uniform e = simp (uniform, e)

-- What a finished run of the first half gives: the readers' tables, and for each subsystem the
-- values of the three calculations over them.
pub record Finished (re : Patterns) (settings : Settings) (scaled : ℕ → ℕ) (g : Dict Subsystem)
    (procinfos : List Procinfo) (fuel : ℕ) : Type 0 where
  pub readers : ReaderTables
  pub tables : Tables
  pub read : read_boardreaders re settings g procinfos ≡ ok readers
  pub returned : subsystem_tables re settings scaled g fuel procinfos ≡ ok tables
  pub holds : (ss : String) → has ss g ≡ true → Holds settings scaled g readers tables ss

-- Without advanced memory usage, where every source is a subsystem and every boardreader belongs to
-- one: from some depth of recursion on the run finishes with the right tables, or at every depth it
-- raises the exception about a circular dependency, with a path that is a cycle.
pub subsystem_tables_ends :
    (re : Patterns) (settings : Settings) (scaled : ℕ → ℕ) (g : Dict Subsystem)
    (procinfos : List Procinfo)
    → settings.advanced_memory_usage ≡ false
    → IsClosed g
    → Belong g procinfos
    → ((n : ℕ) × ((fuel : ℕ) → n ≤ fuel → Finished re settings scaled g procinfos fuel))
      ⊎ ((path : List String) × IsCycle g path
          × ((fuel : ℕ)
              → subsystem_tables re settings scaled g fuel procinfos ≡ err (circular path)))
unfolding subsystem_tables
subsystem_tables_ends re settings scaled g procinfos uniform shut belong =
    let (readers, read, full) = add_readers_fill re settings [] g procinfos uniform belong in
    let started = read_boardreaders-uniform re settings g procinfos uniform read in
    elim (calculate_tables_ends settings scaled g readers shut full) [
      | inl (n, ends) ↦ inl (
        n,
        λ fuel h.
            let (t, e) = ends fuel h in
            record {
              readers = readers;
              tables = t;
              read = started;
              returned = rw started e;
              holds =
                  λ ss known. calculate_tables-Holds settings scaled g fuel readers t ss e known;
            },
      )
      | inr (path, cycle, raised) ↦ inr (path, cycle, λ fuel. rw started (raised fuel))
    ]
