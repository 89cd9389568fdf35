-- ===== src/Component/Tests.antt =====
-- Requests to a component of rc/control/component.py.
use artdaq_daqinterface.Prelude.{ℕ, ◌≡◌, ◌≢◌, refl, false, none, some, [], ◌∷◌, has}
use artdaq_daqinterface.Component.{
  Flags, Component, zero_allowed, accepted, state_change, component_hook, daqinterface_hook,
  revert_state_change,
}
use artdaq_daqinterface.Component.Moves.{
  starting, stopping, booting, terminating, ready, stopped, booted, settled_text,
  state_change_follows,
}
use artdaq_daqinterface.Component.Walks.{drive, drive-walk}
use artdaq_daqinterface.Component.Revert.{boot, asked, revert-terminating, request_under_way}

abbrev no_flags : Flags
no_flags = record {
  do_boot = false;
  do_shutdown = false;
  do_config = false;
  do_recover = false;
  do_start_running = false;
  do_stop_running = false;
  do_terminate = false;
  do_pause_running = false;
  do_resume_running = false;
  do_enable = false;
  do_disable = false;
  do_trace_get = false;
  do_trace_set = false;
}

abbrev daqint : Component ℕ
daqint = record { name = "daqint"; state = "stopped"; run_params = none; flags = no_flags }

state_change_follows_example :
    state_change component_hook "daqint" "starting" 5 (record daqint { state = "ready" })
    ≡ (record daqint { state = "running"; run_params = some 5 }, accepted)
state_change_follows_example = state_change_follows daqint starting ready 5

revert-terminating_example :
    (revert_state_change "daqint"
      (asked daqint terminating ready 5).state
      (asked daqint terminating ready 5)).state
    ≢ settled_text booted
revert-terminating_example = revert-terminating daqint ready stopped 5 refl booted

request_under_way_example :
    state_change daqinterface_hook "daqint" "stopping" 5 (record daqint { state = "booting" })
    ≡ (record daqint { state = "booting" }, zero_allowed)
request_under_way_example = request_under_way daqint boot stopping 5 (unfold has in refl)

drive-walk_example :
    (drive daqint.name 5
      (starting ∷ booting ∷ stopping ∷ terminating ∷ [])
      (record daqint { state = settled_text ready })).state
    ≡ settled_text stopped
drive-walk_example = drive-walk (starting ∷ booting ∷ stopping ∷ terminating ∷ []) daqint ready 5
