-- ===== src/Wiring/Tests.antt =====
-- The tables of a small system of two subsystems, for rc/control/bookkeeping.py.
use artdaq_daqinterface.Prelude.{
  ℕ, String, ◌≡◌, refl, true, false, none, some, List, [], ◌∷◌, ◌⊎◌, ◌↔◌, Memᴰ, has, lookup, keys,
  isin,
}
use mathlib.Core.List.Memᴰ
use artdaq_daqinterface.Procinfo.{Procinfo}
use artdaq_daqinterface.Bookkeeping.Errors.{ok}
use artdaq_daqinterface.Wiring.{
  Wiring, sources, destinations, get_type_key, procinfos_for_string, group_of,
}
use artdaq_daqinterface.Wiring.Nodes.{Node, create_sources_or_destinations}
use artdaq_daqinterface.Wiring.Receivers.{IsNamed, receivers, senders}
use artdaq_daqinterface.Wiring.Agreement.{receivers_mirror_senders}
use artdaq_daqinterface.Wiring.Ends.{entries_agree}

abbrev process : String → ℕ → String → Procinfo
process name rank subsystem = record {
  name = name;
  rank = rank;
  host = "localhost";
  port = "5206";
  port_number = 5206;
  label = "component";
  subsystem = subsystem;
  fhicl_used = "";
  priority = 999;
  lastreturned = "Success";
  state = "Ready";
}

abbrev board : Procinfo
board = process "BoardReader" 0 "1"

abbrev first_builder : Procinfo
first_builder = process "EventBuilder" 1 "1"

abbrev second_builder : Procinfo
second_builder = process "EventBuilder" 2 "2"

abbrev monitor : Procinfo
monitor = process "Dispatcher" 3 "2"

abbrev wiring : Wiring
wiring = record {
  advanced_memory_usage = true;
  max_fragment_size_bytes = 0;
  default_transfer = "Autodetect";
  br_transfer = "Shmem";
  eb_transfer = "TCPSocket";
  dl_transfer = "Multicast";
  hostname = "daq01";
  max_event_size_value = λ s. none;
  max_fragment_size_by_label = ("component", 800) ∷ [];
  max_event_sizes = ("1", 1600) ∷ ("2", 3200) ∷ [];
  procinfos = monitor ∷ second_builder ∷ board ∷ first_builder ∷ [];
  subsystems =
      ("1", record { sources = []; destination = some "2"; fragment_mode = true })
      ∷ ("2", record { sources = "1" ∷ []; destination = none; fragment_mode = true })
      ∷ [];
}

abbrev hosts : List (ℕ × String)
hosts = (0, "daq01") ∷ (1, "daq01") ∷ (2, "daq01") ∷ (3, "daq01") ∷ []

-- An eventbuilder with a source in the subsystem above it.
builder_sources :
    create_sources_or_destinations wiring second_builder sources 3200 false
    ≡ ok (
        record {
          rank = 1;
          transfer = "TCPSocket";
          max_fragment_size_words = 200;
          host_map = some hosts;
        }
        ∷ [])
unfolding create_sources_or_destinations has get_type_key group_of
builder_sources = refl

builder_destinations :
    create_sources_or_destinations wiring first_builder destinations 1600 true
    ≡ ok (
        record {
          rank = 2;
          transfer = "TCPSocket";
          max_fragment_size_words = 200;
          host_map = some hosts;
        }
        ∷ [])
unfolding create_sources_or_destinations has get_type_key group_of
builder_destinations = refl

wiring-IsNamed : IsNamed wiring
unfolding has keys isin
wiring-IsNamed = record { distinct = (refl, (refl, tt)); nonempty = refl; known = known }
  where
    known : (p : Procinfo) → Memᴰ p wiring.procinfos → has p.subsystem wiring.subsystems ≡ true
    known p (Memᴰ.head e) = rw e refl
    known p (Memᴰ.tail (Memᴰ.head e)) = rw e refl
    known p (Memᴰ.tail (Memᴰ.tail (Memᴰ.head e))) = rw e refl
    known p (Memᴰ.tail (Memᴰ.tail (Memᴰ.tail (Memᴰ.head e)))) = rw e refl
    known p (Memᴰ.tail (Memᴰ.tail (Memᴰ.tail (Memᴰ.tail m)))) = absurd (Memᴰ.not-nil m)

sends_on : Memᴰ second_builder (receivers wiring true first_builder)
unfolding procinfos_for_string get_type_key group_of lookup
sends_on = Memᴰ.head refl

first_listed : Memᴰ first_builder wiring.procinfos
first_listed = Memᴰ.tail (Memᴰ.tail (Memᴰ.tail (Memᴰ.head refl)))

receivers_mirror_senders_example :
    (Memᴰ second_builder (receivers wiring false first_builder)
      ⊎ Memᴰ second_builder (receivers wiring true first_builder))
    ↔ Memᴰ first_builder (senders wiring second_builder)
receivers_mirror_senders_example =
    receivers_mirror_senders wiring first_builder second_builder wiring-IsNamed first_listed
      (Memᴰ.tail (Memᴰ.head refl))

abbrev entry : ℕ → Node
entry rank = record {
  rank = rank;
  transfer = "TCPSocket";
  max_fragment_size_words = 200;
  host_map = some hosts;
}

entries_agree_example :
    (t : Node) × (f : Node) × Memᴰ t (entry 2 ∷ [])
    × Memᴰ f (entry 1 ∷ [])
    × (t.rank ≡ 2)
    × (f.rank ≡ 1)
    × (t.transfer ≡ f.transfer)
    × (t.max_fragment_size_words ≡ f.max_fragment_size_words)
unfolding get_type_key lookup
entries_agree_example =
    entries_agree wiring first_builder second_builder true 1600 3200 (entry 2 ∷ []) (entry 1 ∷ [])
      wiring-IsNamed refl refl refl refl refl first_listed sends_on builder_destinations
      builder_sources
