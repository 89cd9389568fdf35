-- ===== src/Inhibit/Tests.antt =====
-- A front end that goes off, for rc/InhibitManager/InhibitManager.py.
use artdaq_daqinterface.Prelude.{
  String, ◌≡◌, ◌≢◌, refl, inl, inr, Bool, true, false, some, List, [], ◌∷◌,
}
use artdaq_daqinterface.Inhibit.{
  new_manager, register_status_msg, process_and_status, split_text, run,
}
use artdaq_daqinterface.Inhibit.Agreement.{AllProper, IsProper, Ends, run-Agrees}

abbrev off_then_timeout : List (String × Bool)
off_then_timeout = ("STATUSMSG_fe1_detail_BUSY_12:00", false) ∷ ("TIMEOUT", true) ∷ []

goes_off :
    run off_then_timeout new_manager
    ≡ some (
      record {
        frontend_dict = ("INHIBITMANAGER", "OK") ∷ ("fe1", "BUSY") ∷ [];
        current_status = "XOFF";
      },
      record { status = "XOFF"; details = "global status change" }
          ∷ record { status = "XOFF"; details = "no change" }
          ∷ [],
    )
unfolding run
goes_off = refl

-- A front end that names its status "XON" is noted, and the manager's status stays.
named_on :
    register_status_msg "STATUSMSG_fe1_detail_XON_12:00" new_manager
    ≡ some (record {
      frontend_dict = ("INHIBITMANAGER", "OK") ∷ ("fe1", "XON") ∷ [];
      current_status = "XON";
    })
unfolding register_status_msg
named_on = refl

abbrev busy : String
busy = "BUSY"

not_on : busy ≢ "XON"
not_on e = cc

abbrev busy-IsProper : IsProper "STATUSMSG_fe1_detail_BUSY_12:00"
unfolding process_and_status split_text
busy-IsProper = record { process = "fe1"; status = "BUSY"; read = refl; not_on = not_on }

abbrev all_proper : AllProper off_then_timeout
all_proper = (inr busy-IsProper, (inl refl, tt))

run-Agrees_example : Ends off_then_timeout new_manager
run-Agrees_example = run-Agrees off_then_timeout new_manager all_proper (inl (refl, (refl, tt)))
