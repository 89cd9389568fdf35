-- ===== src/Command/Tests.antt =====
-- Transitions of a small system, for rc/control/daqinterface.py.
use artdaq_daqinterface.Prelude.{
  ℕ, String, ◌=ₛ◌, ◌≡◌, ◌≢◌, refl, inl, inr, true, false, none, some, List, [], ◌∷◌, Dict, isin,
  keys, length, if◌then◌else◌, arith,
}
use artdaq_daqinterface.Procinfo.{Procinfo}
use artdaq_daqinterface.Bookkeeping.Graph.{Subsystem}
use artdaq_daqinterface.Command.{
  shutdown_command, stop_command, Call, Reply, replied, Sending, Interface, completed,
  subsystems_in_order, send_subsystems, do_command,
}
use artdaq_daqinterface.Command.Sources.{AllPlaced, subsystems_in_order-AllPlaced}
use artdaq_daqinterface.Command.Ends.{IsLayered, subsystems_in_order_ends}
use artdaq_daqinterface.Command.Silence.{IsSilent, send_subsystems-IsSilent}
use artdaq_daqinterface.Command.States.{Leaves, do_command-Leaves}

abbrev process : String → String → String → Procinfo
process name label ss = record {
  name = name;
  rank = 0;
  host = "localhost";
  port = "5206";
  port_number = 5206;
  label = label;
  subsystem = ss;
  fhicl_used = "";
  priority = 999;
  lastreturned = "Success";
  state = "Ready";
}

-- Subsystem 1 sends to subsystem 2, which is named first.
abbrev graph : Dict Subsystem
graph =
    ("2", record { sources = "1" ∷ []; destination = none; fragment_mode = true })
    ∷ ("1", record { sources = []; destination = some "2"; fragment_mode = true })
    ∷ []

abbrev processes : List Procinfo
processes =
    process "EventBuilder" "EventBuilder2" "2"
    ∷ process "EventBuilder" "EventBuilder1" "1"
    ∷ process "BoardReader" "component01" "1"
    ∷ []

abbrev daqint : Interface ℕ
daqint = record {
  component = record {
    name = "daqint";
    state = "shutting";
    run_params = none;
    flags = record {
      do_boot = false;
      do_shutdown = false;
      do_config = false;
      do_recover = false;
      do_start_running = false;
      do_stop_running = false;
      do_terminate = false;
      do_pause_running = false;
      do_resume_running = false;
      do_enable = false;
      do_disable = false;
      do_trace_get = false;
      do_trace_set = false;
    };
  };
  procinfos = processes;
  subsystems = graph;
  exception = false;
  transition_process_errors = [];
}

abbrev order : List String
order = "1" ∷ "2" ∷ []

sources_first : subsystems_in_order graph ≡ some ("1" ∷ "2" ∷ [])
unfolding subsystems_in_order
sources_first = refl

-- A source that is no subsystem keeps the loop going for ever.
unknown_source :
    subsystems_in_order
      (("1", record { sources = "0" ∷ []; destination = none; fragment_mode = true }) ∷ [])
    ≡ none
unfolding subsystems_in_order
unknown_source = refl

subsystems_in_order-AllPlaced_example : (length order ≡ length graph) × AllPlaced graph [] order
subsystems_in_order-AllPlaced_example = subsystems_in_order-AllPlaced graph order sources_first

abbrev succeed : Procinfo → Call → Reply
succeed p c = replied "Success"

abbrev readings : Procinfo → ℕ → String
readings p n = "Success"

stops_in_order :
    (send_subsystems succeed "/tmp" stop_command
      ("1" ∷ "2" ∷ [])
      (record { procinfos = processes; exception = false; key_error = false; sent = [] })).sent
    ≡ "component01" ∷ "EventBuilder1" ∷ "EventBuilder2" ∷ []
unfolding send_subsystems
stops_in_order = refl

-- The state after a Shutdown that all processes carried out.
shuts_down :
    ((do_command succeed readings "/tmp" shutdown_command daqint).1 ≡ completed)
    × ((do_command succeed readings "/tmp" shutdown_command daqint).0.component.state ≡ "")
unfolding do_command
shuts_down = (refl, refl)

do_command-Leaves_example :
    Leaves shutdown_command daqint.component
      (do_command succeed readings "/tmp" shutdown_command daqint)
do_command-Leaves_example = do_command-Leaves succeed readings "/tmp" shutdown_command daqint

abbrev after_exception : Sending
after_exception = record {
  procinfos = processes;
  exception = true;
  key_error = false;
  sent = "component01" ∷ [];
}

send_subsystems-IsSilent_example :
    IsSilent processes (send_subsystems succeed "/tmp" stop_command ("2" ∷ []) after_exception)
send_subsystems-IsSilent_example =
    send_subsystems-IsSilent succeed "/tmp" stop_command ("2" ∷ []) after_exception processes
      (record { set = refl; kept = refl })

abbrev rank : String → ℕ
rank ss = if ss =ₛ "2" then 1 else 0

graph-IsLayered : IsLayered rank graph
unfolding isin keys
graph-IsLayered = record {
  keys_distinct = (refl, (refl, tt));
  layered = (
    (refl, tt),
    (
      (
        record { sources = []; destination = some "2"; fragment_mode = true },
        inr (inl (refl, refl)),
      ),
      omega arith,
      tt,
    ),
    (tt, tt, tt),
  );
}

subsystems_in_order_ends_example : subsystems_in_order graph ≢ none
subsystems_in_order_ends_example = subsystems_in_order_ends rank graph graph-IsLayered
