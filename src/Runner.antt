-- ===== src/Runner.antt =====
-- rc/control/daqinterface.py, `runner`: the loop's body, which run control calls every second. The
-- bodies of the transitions and of the recovery are arguments.
pub mod Chosen
pub mod Served
mod Tests
use artdaq_daqinterface.Prelude.{ℕ, String, ◌=ₛ◌, Bool, true, false, not, ◌&&◌, if◌then◌else◌}
use artdaq_daqinterface.Component.{Flags}

-- What a round calls for a flag.
pub data Action : Type 0 where
  do_boot do_config do_recover do_start_running do_stop_running do_terminate do_enable do_disable
        do_trace_get do_trace_set :
      Action
  do_command : String → Action

-- What a round does: it raises the exception about an exception state, serves a flag, checks the
-- processes, or does nothing.
pub data Round : Type 0 where
  raise_exception : Round
  serve : Action → Round
  check_processes : Round
  idle : Round

-- The fields of DAQInterface that `runner` uses, and all that only the called functions use.
pub record Runner (S : Type 0) : Type 0 where
  pub exception : Bool
  pub in_recovery : Bool
  pub manage_processes : Bool
  pub state : String
  pub flags : Flags
  pub others : S

module _ {S : Type 0} where
  -- The test before the periodic check of the processes.
  unfoldable pub is_monitored : Runner S → Bool
  is_monitored r =
      r.manage_processes
      && not (r.state =ₛ "stopped")
      && not (r.state =ₛ "booting")
      && not (r.state =ₛ "terminating")

  unfoldable pub when_no_flag : Runner S → Round
  unfolding is_monitored
  when_no_flag r = if is_monitored r then check_processes else idle

-- The chain of tests on the flags: what it does, and the flags with the served one reset.
unfoldable pub choose : Flags → Round → Round × Flags
choose f otherwise =
    if f.do_boot
    then (serve do_boot, record f { do_boot = false })
    else (if f.do_shutdown
        then (serve (do_command "Shutdown"), record f { do_shutdown = false })
        else (if f.do_config
            then (serve do_config, record f { do_config = false })
            else (if f.do_recover
                then (serve do_recover, record f { do_recover = false })
                else (if f.do_start_running
                    then (serve do_start_running, record f { do_start_running = false })
                    else (if f.do_stop_running
                        then (serve do_stop_running, record f { do_stop_running = false })
                        else (if f.do_terminate
                            then (serve do_terminate, record f { do_terminate = false })
                            else (if f.do_pause_running
                                then (
                                  serve (do_command "Pause"),
                                  record f { do_pause_running = false },
                                )
                                else (if f.do_resume_running
                                    then (
                                      serve (do_command "Resume"),
                                      record f { do_resume_running = false },
                                    )
                                    else (if f.do_enable
                                        then (serve do_enable, record f { do_enable = false })
                                        else (if f.do_disable
                                            then (serve do_disable, record f { do_disable = false })
                                            else (if f.do_trace_get
                                                then (
                                                  serve do_trace_get,
                                                  record f { do_trace_get = false },
                                                )
                                                else (if f.do_trace_set
                                                    then (
                                                      serve do_trace_set,
                                                      record f { do_trace_set = false },
                                                    )
                                                    else (otherwise, f)))))))))))))

module _ {S : Type 0} where
  unfoldable pub next_round : Runner S → Round × Flags
  unfolding choose when_no_flag
  next_round r = if r.exception then (raise_exception, r.flags) else choose r.flags (when_no_flag r)

  -- `call` runs what the round calls, and says whether it raised an exception; the branch
  -- `raise_exception` calls nothing.
  module _ (call : Round → Runner S → Runner S × Bool)
      (alert_and_recover : Runner S → Runner S × Bool) where
    unfoldable pub attempt : Round → Runner S → Runner S × Bool
    attempt raise_exception r = (r, true)
    attempt (serve action) r = call (serve action) r
    attempt check_processes r = call check_processes r
    attempt idle r = (r, false)

    -- The `except` branch, with whether an exception of the recovery leaves it.
    unfoldable pub after_attempt : Runner S × Bool → Runner S × Bool
    after_attempt (r, true) =
        let (r', raised) = alert_and_recover (record r { in_recovery = true }) in
        (if raised then r' else record r' { in_recovery = false; exception = false }, raised)
    after_attempt (r, false) = (r, false)

    -- One round, with whether an exception leaves it.
    unfoldable pub runner : Runner S → Runner S × Bool
    unfolding next_round attempt after_attempt
    runner r =
        let (round, flags) = next_round r in
        after_attempt (attempt round (record r { flags = flags }))
