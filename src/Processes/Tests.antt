-- ===== src/Processes/Tests.antt =====
-- A list of three processes, for rc/control/daqinterface.py.
use artdaq_daqinterface.Prelude.{String, ◌≡◌, refl, none, some, List, [], ◌∷◌, occurs}
use artdaq_daqinterface.Procinfo.{Procinfo}
use artdaq_daqinterface.Processes.{
  RankLine, mismatch, add_ranks_from_ranksfile, readjust_process_priorities,
}
use artdaq_daqinterface.Processes.Ranks.{SetByLines, add_ranks-SetByLines}
use artdaq_daqinterface.Processes.Priorities.{Judged, readjust_process_priorities-Judged}

abbrev process : String → String → Procinfo
process name label = record {
  name = name;
  rank = 0;
  host = "localhost";
  port = "5206";
  port_number = 5206;
  label = label;
  subsystem = "1";
  fhicl_used = "";
  priority = 999;
  lastreturned = "Success";
  state = "Ready";
}

abbrev first_reader : Procinfo
first_reader = process "BoardReader" "component01"

abbrev second_reader : Procinfo
second_reader = process "BoardReader" "component02"

abbrev builder : Procinfo
builder = process "EventBuilder" "EventBuilder1"

abbrev processes : List Procinfo
processes = first_reader ∷ second_reader ∷ builder ∷ []

abbrev lines : List RankLine
lines =
    record { host = "localhost"; port = "5206"; label = "EventBuilder1"; rank = 2 }
    ∷ record { host = "localhost"; port = "5206"; label = "component02"; rank = 1 }
    ∷ []

moved :
    add_ranks_from_ranksfile
      (record { host = "elsewhere"; port = "5206"; label = "component01"; rank = 0 } ∷ [])
      processes
    ≡ mismatch "component01"
unfolding add_ranks_from_ranksfile
moved = refl

add_ranks-SetByLines_example :
    SetByLines lines processes
      (first_reader ∷ (record second_reader { rank = 1 }) ∷ (record builder { rank = 2 }) ∷ [])
unfolding add_ranks_from_ranksfile
add_ranks-SetByLines_example =
    add_ranks-SetByLines lines processes
      (first_reader ∷ (record second_reader { rank = 1 }) ∷ (record builder { rank = 2 }) ∷ []) refl

-- The second boardreader comes first.
abbrev priorities : List String
priorities = "component02" ∷ "component" ∷ []

set : readjust_process_priorities occurs (some priorities) processes ≡ (
  (record first_reader { priority = 1 }) ∷ (record second_reader { priority = 0 }) ∷ builder ∷ [],
  none,
)
unfolding readjust_process_priorities
set = refl

readjust_process_priorities-Judged_example :
    Judged occurs priorities processes
      (readjust_process_priorities occurs (some priorities) processes)
readjust_process_priorities-Judged_example =
    readjust_process_priorities-Judged occurs priorities processes
