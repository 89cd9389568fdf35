-- ===== src/Recover/Tests.antt =====
-- Recoveries of a small system, for rc/control/daqinterface.py.
use artdaq_daqinterface.Prelude.{
  ℕ, String, ◌=ₛ◌, ◌≡◌, refl, Bool, true, false, none, List, [], ◌∷◌, if◌then◌else◌,
}
use artdaq_daqinterface.Procinfo.{Procinfo}
use artdaq_daqinterface.Command.{Reply, replied, raised}
use artdaq_daqinterface.Runner.{Round, Runner, runner}
use artdaq_daqinterface.Recover.{
  PidSearch, found, search_raises, Query, status, status_after_stop, command_call, Recovery,
  no_flags, do_recover, attempted_stop,
}
use artdaq_daqinterface.Recover.Stopped.{IsRecovered, flags_after, do_recover-IsRecovered}
use artdaq_daqinterface.Recover.Orderly.{IsOrderly, attempted_stop-IsOrderly}
use artdaq_daqinterface.Recover.Rounds.{recover_runner, IsAnswered, exception_round_stops}

abbrev process : String → Procinfo
process label = record {
  name = "BoardReader";
  rank = 0;
  host = "localhost";
  port = "5206";
  port_number = 5206;
  label = label;
  subsystem = "1";
  fhicl_used = "";
  priority = 999;
  lastreturned = "Success";
  state = "Running";
}

abbrev runs : Procinfo → Query → Reply
runs p status = replied "Running"
runs p status_after_stop = replied "Ready"
runs p (command_call c) = if p.label =ₛ "component02" then raised else replied "Success"

abbrev kills : List Procinfo → List Procinfo × Bool
kills ps = (ps, false)

abbrev alive : Procinfo → PidSearch
alive p = found

-- A request to boot is waiting.
abbrev recovery : Recovery ℕ
recovery = record {
  component = record {
    name = "daqint";
    state = "running";
    run_params = none;
    flags = record no_flags { do_boot = true };
  };
  in_recovery = false;
  disable_recovery = false;
  called_launch_procs = true;
  manage_processes = true;
  procinfos = process "component01" ∷ process "component02" ∷ [];
  transition_process_errors = [];
  last_critical_error = "";
}

winds_down :
    (do_recover alive runs kills recovery).0.procinfos
    ≡ record (process "component01") { lastreturned = "Success"; state = "Stopped" }
      ∷ record (process "component02") { lastreturned = "Running"; state = "Stopping" }
      ∷ []
unfolding do_recover
winds_down = refl

-- Before the processes are launched a recovery leaves the request.
keeps_request :
    (do_recover alive runs kills
      (record recovery { called_launch_procs = false })).0.component.flags
    ≡ record no_flags { do_boot = true }
unfolding do_recover
keeps_request = refl

-- The search for the second process raises an exception.
abbrev second_lost : Procinfo → PidSearch
second_lost p = if p.label =ₛ "component02" then search_raises else found

left_by_exception :
    let (d, failed) = do_recover second_lost runs kills recovery in
    (failed ≡ true)
    × (d.in_recovery ≡ true)
    × (d.component.state ≡ "running")
    × (d.component.flags ≡ record no_flags { do_boot = true })
unfolding do_recover
left_by_exception = (refl, refl, refl, refl)

do_recover-IsRecovered_example :
    IsRecovered alive runs kills recovery.component
      (flags_after alive runs recovery)
      (do_recover alive runs kills recovery)
do_recover-IsRecovered_example = do_recover-IsRecovered alive runs kills recovery

attempted_stop-IsOrderly_example :
    IsOrderly (attempted_stop alive runs (process "component01")).exchange
attempted_stop-IsOrderly_example = attempted_stop-IsOrderly alive runs (process "component01")

abbrev failing : Runner (Recovery ℕ)
failing = record {
  exception = true;
  in_recovery = false;
  manage_processes = true;
  state = "running";
  flags = record no_flags { do_boot = true };
  others = recovery;
}

abbrev fails : Round → Runner (Recovery ℕ) → Runner (Recovery ℕ) × Bool
fails round r = (r, true)

exception_round_stops_example :
    IsAnswered alive runs kills failing
      (runner fails (recover_runner alive runs kills "exception") failing)
exception_round_stops_example =
    exception_round_stops alive runs kills fails "exception" failing refl
