-- ===== src/Bodies/Served.antt =====
-- rc/control/daqinterface.py: a transition that `runner` serves, with the branch for an exception.
use artdaq_daqinterface.Prelude.{String, Bool, true, false, Option, List}
use artdaq_daqinterface.Component.{Component}
use artdaq_daqinterface.Bodies.{
  Daqinterface, Progress, goes_on, returned, raised_out, Endless, endless, Servers, recover_from,
}
use artdaq_daqinterface.Recover.Raises.{SomeRaises}
use artdaq_daqinterface.Bodies.Running.{
  StartAnswers, StopAnswers, do_start_running, do_stop_running,
}
use artdaq_daqinterface.Bodies.Reading.{BootAnswers}
use artdaq_daqinterface.Bodies.Booting.{do_boot}
use artdaq_daqinterface.Bodies.Documents.{ConfigAnswers}
use artdaq_daqinterface.Bodies.Configuring.{do_config}
use artdaq_daqinterface.Bodies.Diagram.{IsStuck, Open, Settled}

-- The transitions with a body of their own, and what is answered to each.
pub data Body (A : Type 0) : Type 0 where
  boot : BootAnswers → Body A
  config : (Option A → Option (List String)) → ConfigAnswers → Body A
  start : (Option A → Option String) → StartAnswers → Body A
  stop : StopAnswers → Body A

-- A round is over, an exception has left it, or it is in a loop that does not end.
pub data ServedRound (A : Type 0) : Type 0 where
  round_over : Daqinterface A → ServedRound A
  round_left : Daqinterface A → ServedRound A
  round_endless : Endless → ServedRound A

module _ {A : Type 0} where
  -- The state that the request has set, and that at the end.
  abbrev pub state_of : Body A → String
  state_of (boot w) = "booting"
  state_of (config configs_of w) = "configuring"
  state_of (start run_number_of w) = "starting"
  state_of (stop w) = "stopping"

  abbrev pub target_of : Body A → String
  target_of (boot w) = "booted"
  target_of (config configs_of w) = "ready"
  target_of (start run_number_of w) = "running"
  target_of (stop w) = "ready"

  module _ (servers : Servers) where
    -- The state that a round ends in, why an exception leaves it, or why it does not end.
    abbrev pub IsServed : Component A → String → ServedRound A → Type 0
    IsServed before target (round_endless loop) = IsStuck loop
    IsServed before target (round_left d) = Open before d × SomeRaises servers.find_pid
    IsServed before target (round_over d) = Settled before target d

    unfoldable pub run_body : Body A → Daqinterface A → Progress A
    unfolding do_boot do_config do_start_running do_stop_running
    run_body (boot w) d = do_boot servers w d
    run_body (config configs_of w) d = do_config servers w configs_of d
    run_body (start run_number_of w) d = do_start_running servers run_number_of w d
    run_body (stop w) d = do_stop_running servers w d

    abbrev after_recover : Daqinterface A × Bool → ServedRound A
    after_recover (d, true) = round_left d
    after_recover (d, false) =
        round_over
          (record d { recovery = record (d.recovery) { in_recovery = false }; exception = false })

    -- The `except` branch of `runner`, which an exception of the recovery leaves.
    unfoldable pub on_exception : String → Daqinterface A → ServedRound A
    unfolding recover_from
    on_exception traceback d = after_recover (
        recover_from servers traceback
          (record d { recovery = record (d.recovery) { in_recovery = true } }))

    -- A round of `runner` that serves the transition.
    unfoldable pub serve_body : String → Progress A → ServedRound A
    unfolding on_exception
    serve_body traceback (goes_on d) = round_over d
    serve_body traceback (returned d) = round_over d
    serve_body traceback (raised_out d) = on_exception traceback d
    serve_body traceback (endless loop) = round_endless loop
