-- ===== src/Monitor/Tests.antt =====
-- Checks of a run with two processes, for rc/control/daqinterface.py.
use artdaq_daqinterface.Prelude.{
  String, ◌=ₛ◌, ◌≡◌, refl, false, none, [], ◌∷◌, occurs, isin, if◌then◌else◌,
}
use artdaq_daqinterface.Procinfo.{Procinfo}
use artdaq_daqinterface.Requirements.{Searches}
use artdaq_daqinterface.Monitor.{
  Answer, status, connection_refused, no_route, Monitor, repeated_refusal, check_proc_exceptions,
}
use artdaq_daqinterface.Monitor.First.{later_answers_unread}
use artdaq_daqinterface.Monitor.Refusal.{second_refusal_raises}

abbrev searches : Searches
searches = record {
  search = λ regexp label. occurs regexp label;
  is_ignored = λ line. line =ₛ "";
  rule = λ line. none;
  names_root_file = λ fhicl. false;
}

abbrev process : String → String → Procinfo
process name label = record {
  name = name;
  rank = 0;
  host = "localhost";
  port = "5206";
  port_number = 5206;
  label = label;
  subsystem = "1";
  fhicl_used = "";
  priority = 999;
  lastreturned = "Success";
  state = "Ready";
}

abbrev reader : Procinfo
reader = process "BoardReader" "component01"

abbrev builder : Procinfo
builder = process "EventBuilder" "EventBuilder1"

abbrev monitor : Monitor
monitor = record {
  procinfos = reader ∷ builder ∷ [];
  exception = false;
  procs_which_already_caused_connection_refused = [];
  requirements = [];
}

-- The second process cannot be reached.
abbrev one_answers : Procinfo → Answer
one_answers p = if p.label =ₛ "component01" then status "Running" else no_route

abbrev both_answer : Procinfo → Answer
both_answer p = if p.label =ₛ "component01" then status "Running" else status "Error"

later_answers_unread_example :
    check_proc_exceptions searches one_answers monitor
    ≡ check_proc_exceptions searches both_answer monitor
later_answers_unread_example =
    later_answers_unread searches one_answers both_answer reader (builder ∷ []) monitor "Running"
      refl refl refl refl

abbrev refuses : Procinfo → Answer
refuses p = if p.label =ₛ "component01" then connection_refused else status "Running"

second_refusal_raises_example :
    (check_proc_exceptions searches refuses (check_proc_exceptions searches refuses monitor).0).1
    ≡ repeated_refusal
unfolding isin
second_refusal_raises_example =
    second_refusal_raises searches refuses reader refuses (builder ∷ []) monitor refl refl refl refl
      refl
