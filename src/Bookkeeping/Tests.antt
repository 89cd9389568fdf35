-- ===== src/Bookkeeping/Tests.antt =====
-- Runs of the bookkeeping of rc/control/bookkeeping.py on small systems of two subsystems.
use artdaq_daqinterface.Prelude.{
  ℕ, ◌≤◌, ◌%◌, String, ◌≡◌, refl, ◌⊎◌, inl, inr, true, false, none, some, List, [], ◌∷◌, Dict, isin,
  discard, has, lookup, insert, keys, eq_iff, Bool-cases, ◌=ₛ◌ as ◌==◌, if◌then◌else◌,
}
use artdaq_daqinterface.Bookkeeping.Errors.{ok, err, at_key, circular}
use artdaq_daqinterface.Bookkeeping.Graph.{
  Subsystem, found, find_cycle_in_subsystem_graph, dfs, scan, search_roots,
}
use artdaq_daqinterface.Bookkeeping.Graph.Cycle.{IsCycle}
use artdaq_daqinterface.Bookkeeping.Graph.Verdict.{IsAcyclic, IsCyclic, find_cycle_decides}
use artdaq_daqinterface.Bookkeeping.Memo.{calculate}
use artdaq_daqinterface.Bookkeeping.Memo.Meaning.{Value, calculate-Value}
use artdaq_daqinterface.Bookkeeping.Memo.Total.{IsClosed}
use artdaq_daqinterface.Bookkeeping.Readers.{
  Patterns, Settings, ReaderTables, add_readers, add_reader, add_strictly, add_space, modify_key,
  reader_fragments, empty_tables,
}
use artdaq_daqinterface.Bookkeeping.Readers.Strict.{IsCounted, add_readers-strict}
use artdaq_daqinterface.Bookkeeping.Tables.{
  Tables, reader, max_event_size, minimum_event_size, calculate_tables, subsystem_tables,
  expected_fragments_per_event, subsystem_fragment_ids,
}
use artdaq_daqinterface.Bookkeeping.Tables.Right.{Holds, calculate_tables-Holds}
use artdaq_daqinterface.Bookkeeping.Tables.Bounds.{max_event_size_bounds}
use artdaq_daqinterface.Bookkeeping.Tables.Ends.{Finished, subsystem_tables_ends}
use artdaq_daqinterface.Procinfo.{Procinfo}

-- Subsystem 2 takes the events of subsystem 1.
abbrev chain : Dict Subsystem
chain =
    ("1", record { sources = []; destination = some "2"; fragment_mode = true })
    ∷ ("2", record { sources = "1" ∷ []; destination = none; fragment_mode = true })
    ∷ []

abbrev chain_1 : Subsystem
chain_1 = record { sources = []; destination = some "2"; fragment_mode = true }

abbrev chain_2 : Subsystem
chain_2 = record { sources = "1" ∷ []; destination = none; fragment_mode = true }

abbrev ring : Dict Subsystem
ring =
    ("1", record { sources = "2" ∷ []; destination = some "2"; fragment_mode = true })
    ∷ ("2", record { sources = "1" ∷ []; destination = some "1"; fragment_mode = true })
    ∷ []

ring_found : find_cycle_in_subsystem_graph ring ≡ found ("1" ∷ "2" ∷ "1" ∷ [])
unfolding find_cycle_in_subsystem_graph search_roots dfs scan isin discard has lookup keys
ring_found = refl

find_cycle_decides_example : IsAcyclic ring ⊎ IsCyclic ring
find_cycle_decides_example = find_cycle_decides ring

abbrev patterns : Patterns
patterns = record {
  max_fragment_size = λ s. none;
  fragment_id = λ s. if s == "fragment_id: 7" then some 7 else none;
  fragment_ids = λ s. none;
  sends_no_fragments = λ s. false;
}

abbrev settings : Settings
settings = record {
  advanced_memory_usage = false;
  strict_fragment_id_mode = true;
  max_fragment_size_bytes = 2000;
}

abbrev reader_process : String → String → Procinfo
reader_process label ss = record {
  name = "BoardReader";
  rank = 0;
  host = "localhost";
  port = "5206";
  port_number = 5206;
  label = label;
  subsystem = ss;
  fhicl_used = "fragment_id: 7";
  priority = 999;
  lastreturned = "Success";
  state = "Ready";
}

abbrev processes : List Procinfo
processes = reader_process "a" "1" ∷ reader_process "b" "1" ∷ reader_process "c" "2" ∷ []

abbrev read_tables : ReaderTables
read_tables = record {
  space = ("1", 2000) ∷ ("2", 2000) ∷ [];
  ids = ("1", 7 ∷ []) ∷ ("2", 7 ∷ []) ∷ [];
}

readers_run : add_readers patterns settings [] processes (empty_tables chain) ≡ ok read_tables
unfolding add_readers add_reader add_strictly add_space modify_key reader_fragments empty_tables
readers_run = refl

add_readers-strict_example : IsCounted 2000 read_tables
add_readers-strict_example =
    add_readers-strict patterns settings [] chain processes read_tables refl refl readers_run

abbrev finished : Tables
finished = record {
  expected = ("1", 1) ∷ ("2", 2) ∷ [];
  sizes = ("1", 10240) ∷ ("2", 12240) ∷ [];
  fragment_ids = ("1", reader 7 ∷ []) ∷ ("2", reader 7 ∷ reader 7 ∷ []) ∷ [];
}

tables_run : calculate_tables settings (λ n. n) chain 3 read_tables ≡ ok finished
unfolding calculate_tables expected_fragments_per_event max_event_size subsystem_fragment_ids
    calculate at_key find_cycle_in_subsystem_graph search_roots dfs scan isin discard has lookup
    insert keys
tables_run = refl

calculate_tables-Holds_example : Holds settings (λ n. n) chain read_tables finished "2"
calculate_tables-Holds_example =
    calculate_tables-Holds settings (λ n. n) chain 3 read_tables finished "2" tables_run
      (unfold has lookup in refl)

abbrev sizes_run : ℕ × Dict ℕ
sizes_run = (12240, ("1", 10240) ∷ ("2", 12240) ∷ [])

size_of_2 :
    calculate (max_event_size chain read_tables settings (λ n. n)) 3 chain "2" [] ≡ ok sizes_run
unfolding max_event_size calculate at_key lookup insert
size_of_2 = refl

Value-of_2 : Value (max_event_size chain read_tables settings (λ n. n)) chain "2" 12240
Value-of_2 =
    (calculate-Value (max_event_size chain read_tables settings (λ n. n)) chain 3 "2" [] sizes_run
      (λ ss v h. absurd (unfold lookup in cc)) size_of_2).0

max_event_size_bounds_example :
    (minimum_event_size ≤ 12240)
    × ((sub : Subsystem) (t : String) (w : ℕ)
        → lookup "2" chain ≡ some sub
        → isin t sub.sources ≡ true
        → Value (max_event_size chain read_tables settings (λ n. n)) chain t w
        → w ≤ 12240)
    × (settings.advanced_memory_usage ≡ true → 12240 % 8 ≡ 0)
max_event_size_bounds_example =
    max_event_size_bounds settings (λ n. n) chain read_tables "2" 12240 Value-of_2

chain-IsClosed : IsClosed chain
unfolding lookup isin has
chain-IsClosed = record {
  closed = λ v sub t at listed. elim (Bool-cases ("1" == v)) [
    | inl e ↦
        let same : chain_1 ≡ sub = cc (rw e at at) in
        let none_listed : isin t chain_1.sources ≡ true = rw (← same) at listed in cc none_listed
    | inr e ↦ elim (Bool-cases ("2" == v)) [
      | inl f ↦
          let same : chain_2 ≡ sub = cc (rw (e, f) at at) in
          let one : isin t chain_2.sources ≡ true = rw (← same) at listed in
          elim (Bool-cases ("1" == t)) [
            | inl g ↦ rw (← (eq_iff "1" t).0 g) refl
            | inr g ↦ absurd (cc (rw g at one))
          ]
      | inr f ↦ absurd (cc (rw (e, f) at at))
    ]
  ];
}

subsystem_tables_ends_example :
    ((n : ℕ) × ((fuel : ℕ) → n ≤ fuel → Finished patterns settings (λ n. n) chain processes fuel))
    ⊎ ((path : List String) × IsCycle chain path
        × ((fuel : ℕ)
            → subsystem_tables patterns settings (λ n. n) chain fuel processes
              ≡ err (circular path)))
subsystem_tables_ends_example =
    subsystem_tables_ends patterns settings (λ n. n) chain processes refl chain-IsClosed
      (unfold has lookup in ((λ h. refl), ((λ h. refl), ((λ h. refl), tt))))
