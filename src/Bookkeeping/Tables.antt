-- ===== src/Bookkeeping/Tables.antt =====
-- rc/control/bookkeeping.py, the first half of `bookkeeping_for_fhicl_documents_artdaq_v3_base`: the
-- expected fragments, the maximal event size and the fragment ids of each subsystem.
pub mod Right
pub mod Ends
pub mod Bounds
use artdaq_daqinterface.Prelude.{
  ℕ, ◌+◌, ◌-◌, ◌%◌, String, ◌=ₛ◌, Bool, true, false, List, [], ◌∷◌, ◌++◌, map, Dict, insert, keys,
  length, ltb, ◌==◌, if◌then◌else◌,
}
use artdaq_daqinterface.Bookkeeping.Errors.{Result, ok, err, ◌>>=◌, at_key, circular}
use artdaq_daqinterface.Bookkeeping.Graph.{
  Subsystem, Search, clear, found, failed, find_cycle_in_subsystem_graph,
}
use artdaq_daqinterface.Bookkeeping.Memo.{Calculation, skip, known_value, recurse, calculate}
use artdaq_daqinterface.Bookkeeping.Readers.{
  Patterns, Settings, ReaderTables, max_fragment_size_by_label, add_readers, empty_tables,
}
use artdaq_daqinterface.Procinfo.{Procinfo}

-- The list of `calculate_subsystem_fragment_ids` mixes the readers' numbers and subsystems' names.
pub data FragmentId : Type 0 where
  reader : ℕ → FragmentId
  of_subsystem : String → FragmentId

-- `if size % 8 != 0: size += 8 - size % 8`
unfoldable pub round_to_words : ℕ → ℕ
round_to_words n = if n % 8 == 0 then n else n + (8 - n % 8)

abbrev pub minimum_event_size : ℕ
minimum_event_size = 10240

module _ (g : Dict Subsystem) (readers : ReaderTables) where
  -- `calculate_expected_fragments_per_event`
  unfoldable pub expected_fragments_per_event : Calculation ℕ
  unfolding at_key
  expected_fragments_per_event = record {
    start = λ ss. at_key readers.ids ss >>= λ l. ok (length l);
    plan = λ ss source.
        if source =ₛ ss
        then ok skip
        else at_key g source >>= λ sub. ok (if sub.fragment_mode then recurse else known_value 1);
    join = λ a b. a + b;
    finish = λ a. a;
  }

  -- `calculate_max_event_size`; `scaled` stands for `int(float(size * memory_scale_factor))`.
  unfoldable pub max_event_size : Settings → (ℕ → ℕ) → Calculation ℕ
  unfolding at_key round_to_words
  max_event_size settings scaled = record {
    start = λ ss. at_key readers.space ss >>= λ size.
        ok (if settings.advanced_memory_usage then round_to_words (scaled size) else size);
    plan = λ ss source. ok recurse;
    join = λ a b. a + b;
    finish = λ size. if ltb size minimum_event_size then minimum_event_size else size;
  }

  -- `calculate_subsystem_fragment_ids`
  unfoldable pub subsystem_fragment_ids : Calculation (List FragmentId)
  unfolding at_key
  subsystem_fragment_ids = record {
    start = λ ss. at_key readers.ids ss >>= λ l. ok (map reader l);
    plan = λ ss source. at_key g source >>= λ sub.
        ok (if sub.fragment_mode then recurse else known_value (of_subsystem source ∷ []));
    join = λ a b. a ++ b;
    finish = λ a. a;
  }

pub record Tables : Type 0 where
  pub expected : Dict ℕ
  pub sizes : Dict ℕ
  pub fragment_ids : Dict (List FragmentId)

abbrev pub no_tables : Tables
no_tables = record { expected = []; sizes = []; fragment_ids = [] }

module _ (fuel : ℕ) (g : Dict Subsystem) (count : Calculation ℕ) (size : Calculation ℕ)
    (ids : Calculation (List FragmentId)) where
  -- The loop over the subsystems; the first tables are the three caches.
  unfoldable pub fill_tables : List String → Tables → Tables → Result Tables
  unfolding insert calculate
  fill_tables [] caches t = ok t
  fill_tables (ss ∷ rest) caches t = calculate count fuel g ss caches.expected >>= λ r₁.
      calculate size fuel g ss caches.sizes >>= λ r₂.
      calculate ids fuel g ss caches.fragment_ids >>= λ r₃.
      fill_tables rest (record { expected = r₁.1; sizes = r₂.1; fragment_ids = r₃.1 })
        (record {
          expected = insert ss r₁.0 t.expected;
          sizes = insert ss r₂.0 t.sizes;
          fragment_ids = insert ss r₃.0 t.fragment_ids;
        })

-- `if cycle is not None: raise Exception(...)`
unfoldable pub unless_cycle : Search → Result Tables → Result Tables
unless_cycle (clear m) rest = rest
unless_cycle (found path) rest = err (circular path)
unless_cycle (failed e) rest = err e

module _ (settings : Settings) (scaled : ℕ → ℕ) (g : Dict Subsystem) where
  -- From the search for a cycle to the end of the recursive calculations.
  unfoldable pub calculate_tables : ℕ → ReaderTables → Result Tables
  unfolding unless_cycle fill_tables
  calculate_tables fuel readers = unless_cycle (find_cycle_in_subsystem_graph g) (
      fill_tables fuel g (expected_fragments_per_event g readers)
        (max_event_size g readers settings scaled) (subsystem_fragment_ids g readers) (keys g)
        no_tables no_tables)

module _ (re : Patterns) (settings : Settings) (g : Dict Subsystem) where
  unfoldable pub read_boardreaders : List Procinfo → Result ReaderTables
  unfolding max_fragment_size_by_label add_readers empty_tables
  read_boardreaders procinfos =
      (if settings.advanced_memory_usage then max_fragment_size_by_label re procinfos [] else ok [])
      >>= λ sizes. add_readers re settings sizes procinfos (empty_tables g)

module _ (re : Patterns) (settings : Settings) (scaled : ℕ → ℕ) (g : Dict Subsystem) where
  unfoldable pub subsystem_tables : ℕ → List Procinfo → Result Tables
  unfolding read_boardreaders calculate_tables
  subsystem_tables fuel procinfos = read_boardreaders re settings g procinfos >>= λ readers.
      calculate_tables settings scaled g fuel readers
