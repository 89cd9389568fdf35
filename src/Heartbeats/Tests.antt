-- ===== src/Heartbeats/Tests.antt =====
-- The check of a small running system, for rc/control/manage_processes_direct.py.
use artdaq_daqinterface.Prelude.{
  String, ◌=ₛ◌, ◌≡◌, refl, true, false, none, List, [], ◌∷◌, ◌↔◌, Memᴰ, isin, pos, IsDistinct,
  if◌then◌else◌, append_text, arith,
}
use artdaq_daqinterface.Procinfo.{Procinfo}
use artdaq_daqinterface.Requirements.{Searches, Requirement, count_down}
use artdaq_daqinterface.Requirements.Counting.{AllMet}
use artdaq_daqinterface.Heartbeats.{
  quiet, died, is_found, procinfos_to_remove, check_proc_heartbeats,
}
use artdaq_daqinterface.Heartbeats.Remaining.{labels}
use artdaq_daqinterface.Heartbeats.Met.{gone_with}
use artdaq_daqinterface.Heartbeats.Survivors.{heartbeats_keep_found}

abbrev process : String → String → Procinfo
process label host = record {
  name = "BoardReader";
  rank = 0;
  host = host;
  port = "5206";
  port_number = 5206;
  label = label;
  subsystem = "1";
  fhicl_used = "";
  priority = 999;
  lastreturned = "Success";
  state = "Running";
}

abbrev system : List Procinfo
system = process "BR1" "daq01" ∷ process "BR2" "daq02" ∷ process "BR3" "daq01" ∷ []

-- The second process is no longer there.
abbrev on_host : List Procinfo → String → List String
on_host ps host = if host =ₛ "daq01" then "BR3_P0" ∷ "BR1_P0" ∷ [] else []

abbrev searches : Searches
searches = record {
  search = λ regexp label. true;
  is_ignored = λ line. false;
  rule = λ line. none;
  names_root_file = λ fhicl. false;
}

abbrev two_of_three : Requirement
two_of_three = record {
  regexp = "BR.*";
  original_count = 3;
  minimum_count = 2;
  current_count = pos 3;
}

goes_on :
    check_proc_heartbeats searches on_host "_P0" true "running" system (two_of_three ∷ [])
    ≡ record {
      procinfos = process "BR1" "daq01" ∷ process "BR3" "daq01" ∷ [];
      requirements = record two_of_three { current_count = pos 2 } ∷ [];
      pulse = quiet;
      found_processes = process "BR1" "daq01" ∷ process "BR3" "daq01" ∷ [];
    }
unfolding check_proc_heartbeats isin append_text count_down
goes_on = refl

ends_outside_run :
    (check_proc_heartbeats searches on_host "_P0" true "ready" system (two_of_three ∷ [])).pulse
    ≡ died ("BR2" ∷ [])
unfolding check_proc_heartbeats isin append_text
ends_outside_run = refl

is_calm :
    (check_proc_heartbeats searches on_host "_P0" true "running" system (two_of_three ∷ [])).pulse
    ≡ quiet
unfolding check_proc_heartbeats isin append_text count_down
is_calm = refl

distinct : IsDistinct (labels system)
unfolding isin
distinct = (refl, (refl, (refl, tt)))

heartbeats_keep_found_example :
    let heard =
      check_proc_heartbeats searches on_host "_P0" true "running" system (two_of_three ∷ []) in
    (Memᴰ (process "BR3" "daq01") heard.procinfos ↔ (
      Memᴰ (process "BR3" "daq01") system
      × (is_found on_host "_P0" system (process "BR3" "daq01") ≡ true)))
    × AllMet searches (gone_with (procinfos_to_remove on_host "_P0" system) []) heard.requirements
heartbeats_keep_found_example =
    heartbeats_keep_found searches on_host "_P0" system (two_of_three ∷ []) (process "BR3" "daq01")
      distinct (record { left = 3; current = refl; counted = refl; enough = omega arith }, tt)
      is_calm
