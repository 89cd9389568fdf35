-- ===== src/Requirements/Tests.antt =====
-- Losses of processes under a rule of rc/control/daqinterface.py.
use artdaq_daqinterface.Prelude.{
  ℕ, String, ◌=ₛ◌, ◌≡◌, ◌≢◌, refl, false, none, some, List, [], ◌∷◌, occurs, pos, arith,
  if◌then◌else◌,
}
use artdaq_daqinterface.Procinfo.{Procinfo}
use artdaq_daqinterface.Requirements.{Searches, Requirement, count_down, lose_process, tolerated}
use artdaq_daqinterface.Requirements.Counting.{
  AllMet, lose_all, lose_all-AllMet, essential_loss_ends,
}

abbrev searches : Searches
searches = record {
  search = λ regexp label. occurs regexp label;
  is_ignored = λ line. line =ₛ "";
  rule = λ line. if line =ₛ "EventBuilder 0.5 1" then some ("EventBuilder", 500000, 1) else none;
  names_root_file = λ fhicl. false;
}

abbrev process : String → String → Procinfo
process name label = record {
  name = name;
  rank = 0;
  host = "localhost";
  port = "5206";
  port_number = 5206;
  label = label;
  subsystem = "1";
  fhicl_used = "";
  priority = 999;
  lastreturned = "Success";
  state = "Running";
}

abbrev builders : List Procinfo
builders = process "EventBuilder" "EventBuilder1" ∷ process "EventBuilder" "EventBuilder2" ∷ []

abbrev requirement : ℕ → Requirement
requirement left = record {
  regexp = "EventBuilder";
  original_count = 2;
  minimum_count = 1;
  current_count = pos left;
}

one_lost :
    lose_all searches (λ p. []) (process "EventBuilder" "EventBuilder1" ∷ []) (requirement 2 ∷ [])
    ≡ some (requirement 1 ∷ [])
unfolding lose_process count_down
one_lost = refl

lose_all-AllMet_example :
    AllMet searches (process "EventBuilder" "EventBuilder1" ∷ []) (requirement 1 ∷ [])
lose_all-AllMet_example =
    lose_all-AllMet searches (λ p. []) (process "EventBuilder" "EventBuilder1" ∷ [])
      (requirement 2 ∷ []) (requirement 1 ∷ [])
      (record { left = 2; current = refl; counted = omega arith; enough = omega arith }, tt)
      one_lost

essential_loss_ends_example :
    (lose_process searches [] (process "BoardReader" "component01") (requirement 2 ∷ [])).1
    ≢ tolerated
essential_loss_ends_example =
    essential_loss_ends searches [] (process "BoardReader" "component01") (requirement 2 ∷ []) refl
      refl
