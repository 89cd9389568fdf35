-- ===== src/Boot/Tests.antt =====
-- Boots of a small system, for rc/control/daqinterface.py.
use artdaq_daqinterface.Prelude.{String, ◌=ₛ◌, ◌≡◌, refl, ◌↔◌, Bool, true, none, some, [], ◌∷◌}
use artdaq_daqinterface.Procinfo.{Procinfo}
use artdaq_daqinterface.Boot.{
  BootInfo, duplicate_label, inconsistent, check_boot_info, determine_logfilename,
}
use artdaq_daqinterface.Boot.Sound.{IsBootable, check_boot_info_decides}

abbrev process : String → String → Procinfo
process name label = record {
  name = name;
  rank = 0;
  host = "localhost";
  port = "5206";
  port_number = 5206;
  label = label;
  subsystem = "1";
  fhicl_used = "";
  priority = 999;
  lastreturned = "Success";
  state = "Booted";
}

-- Subsystem 1 sends to subsystem 2.
abbrev boot_info : BootInfo
boot_info = record {
  daq_setup_script = some "/setup.sh";
  debug_level = some 1;
  procinfos = process "BoardReader" "component01" ∷ process "RoutingManager" "router" ∷ [];
  subsystems =
      ("1", record { sources = []; destination = some "2"; fragment_mode = true })
      ∷ ("2", record { sources = "1" ∷ []; destination = none; fragment_mode = true })
      ∷ [];
}

abbrev is_setup : String → Bool
is_setup name = name =ₛ "/setup.sh"

boot_passes : check_boot_info is_setup boot_info ≡ none
unfolding check_boot_info
boot_passes = refl

twice :
    check_boot_info is_setup (record boot_info {
      procinfos = process "BoardReader" "component01" ∷ process "EventBuilder" "component01" ∷ [];
    })
    ≡ some duplicate_label
unfolding check_boot_info
twice = refl

one_way :
    check_boot_info is_setup (record boot_info {
      subsystems =
          ("1", record { sources = []; destination = some "2"; fragment_mode = true })
          ∷ ("2", record { sources = []; destination = none; fragment_mode = true })
          ∷ [];
    })
    ≡ some (inconsistent "1" "2")
unfolding check_boot_info
one_way = refl

logfile :
    determine_logfilename
      ("/log/component01-host-1.log" ∷ [])
      ("/log/EventBuilder1-host-2.log" ∷ [])
      []
      []
      []
      (process "EventBuilder" "EventBuilder1")
    ≡ some "/log/EventBuilder1-host-2.log"
unfolding determine_logfilename
logfile = refl

check_boot_info_decides_example :
    (check_boot_info is_setup boot_info ≡ none) ↔ IsBootable is_setup boot_info
check_boot_info_decides_example = check_boot_info_decides is_setup boot_info
