-- ===== src/Recover.antt =====
-- rc/control/daqinterface.py: the ways back to the state "stopped", `do_recover`,
-- `alert_and_recover` and `do_terminate`, and `revert_failed_transition`.
pub mod Raises
pub mod Stopped
pub mod Orderly
pub mod Rounds
mod Tests
use artdaq_daqinterface.Prelude.{
  ℕ, String, ◌=ₛ◌, Bool, true, false, not, ◌&&◌, ◌||◌, Option, none, some, List, [], ◌∷◌, ◌++◌,
  occurs, ◌==◌, if◌then◌else◌,
}
use artdaq_daqinterface.Procinfo.{Procinfo}
use artdaq_daqinterface.Component.{
  Flags, Component, complete_state_change, revert_state_change, state,
}
use artdaq_daqinterface.Transition.{is_fine}
use artdaq_daqinterface.Fhicl.{reversed}
use artdaq_daqinterface.Command.{
  Command, stop_command, shutdown_command, target_states, verbing_to_states, Reply, replied, raised,
  add_priority,
}

-- What is asked of a process during a recovery: its status, twice at most, and two commands.
pub data Query : Type 0 where
  status status_after_stop : Query
  command_call : Command → Query

-- What `get_pid_for_process` finds; the search raises an exception where `ps` or `ssh` writes an error.
pub data PidSearch : Type 0 where
  found not_found search_raises : PidSearch

abbrev pub has_pid : PidSearch → Bool
has_pid found = true
has_pid _ = false

abbrev pub is_raised : PidSearch → Bool
is_raised search_raises = true
is_raised _ = false

-- The queries of one process, with their replies, in order.
abbrev pub Exchange : Type 0
Exchange = List (Query × Reply)

-- A process, the exchange so far, and whether the function goes on.
pub record Attempt : Type 0 where
  pub procinfo : Procinfo
  pub exchange : Exchange
  pub goes_on : Bool

-- The fields of DAQInterface that a recovery uses.
pub record Recovery (A : Type 0) : Type 0 where
  pub component : Component A
  pub in_recovery : Bool
  pub disable_recovery : Bool
  pub called_launch_procs : Bool
  pub manage_processes : Bool
  pub procinfos : List Procinfo
  pub transition_process_errors : List String
  pub last_critical_error : String

abbrev pub process_types : List String
process_types = "BoardReader" ∷ "EventBuilder" ∷ "DataLogger" ∷ "Dispatcher" ∷ "RoutingManager" ∷ []

abbrev pub no_flags : Flags
no_flags = record {
  do_boot = false;
  do_shutdown = false;
  do_config = false;
  do_recover = false;
  do_start_running = false;
  do_stop_running = false;
  do_terminate = false;
  do_pause_running = false;
  do_resume_running = false;
  do_enable = false;
  do_disable = false;
  do_trace_get = false;
  do_trace_set = false;
}

-- `find_pid` is the search for a process's number; `ask` are the replies of the processes' servers.
module _ (find_pid : Procinfo → PidSearch) (ask : Procinfo → Query → Reply) where
  -- `procinfo.lastreturned = ...status()` and `procinfo.state = procinfo.lastreturned`
  unfoldable pub note_state : Query → Attempt → Reply → Attempt
  note_state q a raised = record a { exchange = a.exchange ++ (q, raised) ∷ []; goes_on = false }
  note_state q a (replied s) = record a {
    procinfo = record (a.procinfo) { lastreturned = s; state = s };
    exchange = a.exchange ++ (q, replied s) ∷ [];
  }

  unfoldable pub ask_state : Query → Attempt → Attempt
  unfolding note_state
  ask_state q a = note_state q a (ask a.procinfo q)

  -- The reply to a command; where the command failed, an exception is raised, and caught by the
  -- caller, which returns.
  unfoldable pub note_reply : Command → Attempt → Reply → Attempt
  unfolding is_fine
  note_reply c a raised = record a {
    exchange = a.exchange ++ (command_call c, raised) ∷ [];
    goes_on = false;
  }
  note_reply c a (replied s) =
      let a' : Attempt = record a {
        procinfo = record (a.procinfo) { lastreturned = s };
        exchange = a.exchange ++ (command_call c, replied s) ∷ [];
      } in
      if is_fine (target_states c) s
      then record a' { procinfo = record (a'.procinfo) { state = target_states c } }
      else record a' { goes_on = false }

  unfoldable pub send_recover_command : Command → Attempt → Attempt
  unfolding note_reply
  send_recover_command c a =
      let a' : Attempt = record a {
        procinfo = record (a.procinfo) { state = verbing_to_states c };
      } in
      note_reply c a' (ask a'.procinfo (command_call c))

  abbrev pub then_if : Bool → (Attempt → Attempt) → Attempt → Attempt
  then_if b f a = if b then f a else a

  -- The part for a running process.
  unfoldable pub stop_running : Attempt → Attempt
  unfolding send_recover_command ask_state
  stop_running a =
      let a' = send_recover_command stop_command a in
      then_if a'.goes_on (ask_state status_after_stop) a'

  -- The two parts that follow the first status.
  unfoldable pub wind_down : Attempt → Attempt
  unfolding stop_running send_recover_command
  wind_down a =
      let a' = then_if (a.procinfo.state =ₛ "Running") stop_running a in
      then_if (a'.goes_on && (a'.procinfo.state =ₛ "Ready")) (send_recover_command shutdown_command)
        a'

  unfoldable pub attempted_stop : Procinfo → Attempt
  unfolding ask_state wind_down
  attempted_stop p =
      let start : Attempt = record { procinfo = p; exchange = []; goes_on = true } in
      let asked = ask_state status start in
      if has_pid (find_pid p) then then_if asked.goes_on wind_down asked else start

  -- The threads for one type of process and one priority.
  unfoldable pub stop_bucket : (Procinfo → Bool) → List Procinfo → List Procinfo
  unfolding attempted_stop
  stop_bucket in_bucket [] = []
  stop_bucket in_bucket (p ∷ ps) =
      (if in_bucket p then (attempted_stop p).procinfo else p) ∷ stop_bucket in_bucket ps

  unfoldable pub priorities_used : String → List Procinfo → List ℕ
  priorities_used name [] = []
  priorities_used name (p ∷ ps) =
      let rest = priorities_used name ps in
      if occurs name p.name then add_priority p.priority rest else rest

  -- Whether the thread of one of them raises an exception, which `join` raises again.
  unfoldable pub bucket_raises : (Procinfo → Bool) → List Procinfo → Bool
  bucket_raises in_bucket [] = false
  bucket_raises in_bucket (p ∷ ps) =
      (in_bucket p && is_raised (find_pid p)) || bucket_raises in_bucket ps

  -- The processes, and whether an exception was raised, behind which nothing more is stopped.
  unfoldable pub stop_priorities : String → List ℕ → List Procinfo → List Procinfo × Bool
  unfolding stop_bucket bucket_raises
  stop_priorities name [] ps = (ps, false)
  stop_priorities name (n ∷ ns) ps =
      let in_bucket : Procinfo → Bool = λ p. occurs name p.name && (n == p.priority) in
      let stopped = stop_bucket in_bucket ps in
      let later = stop_priorities name ns stopped in
      if bucket_raises in_bucket ps then (stopped, true) else later

  unfoldable pub stop_names : List String → List Procinfo → List Procinfo × Bool
  unfolding stop_priorities priorities_used reversed
  stop_names [] ps = (ps, false)
  stop_names (name ∷ names) ps =
      let stopped = stop_priorities name (reversed (priorities_used name ps)) ps in
      let later = stop_names names stopped.0 in if stopped.1 then stopped else later

  -- `procinfo.server.daq.shutdown()` for one process: the process, and whether it raised.
  unfoldable pub shut_one : Procinfo → Reply → Procinfo × Bool
  unfolding is_fine
  shut_one p raised = (record p { state = verbing_to_states shutdown_command }, true)
  shut_one p (replied s) =
      let p' : Procinfo = record p {
        lastreturned = s;
        state = verbing_to_states shutdown_command;
      } in
      (
        if is_fine (target_states shutdown_command) s
            then record p' { state = target_states shutdown_command }
            else p',
        false,
      )

  -- The loop over the processes, which an exception ends.
  unfoldable pub shut_all : List Procinfo → List Procinfo × Bool
  unfolding shut_one
  shut_all [] = ([], false)
  shut_all (p ∷ ps) =
      let (p', failed) = shut_one p (ask p (command_call shutdown_command)) in
      let (rest, later) = shut_all ps in if failed then (p' ∷ ps, true) else (p' ∷ rest, later)

  module _ {A : Type 0} where
    -- The end of a recovery, and its whole where it is skipped.
    unfoldable pub recovered : Recovery A → Recovery A
    unfolding complete_state_change
    recovered d = record d {
      in_recovery = false;
      component = complete_state_change d.component.name "recovering" d.component;
    }

    unfoldable pub clear_flags : Recovery A → Recovery A
    clear_flags d = record d { component = record (d.component) { flags = no_flags } }

    abbrev pub skips : Recovery A → Bool
    skips d = d.disable_recovery || not d.called_launch_procs

    unfoldable pub revert_failed_transition : Recovery A → Recovery A
    unfolding revert_state_change state
    revert_failed_transition d =
        let c = d.component in
        record d { component = revert_state_change c.name (state c.name c) c }

  -- `kill_procs` answers with the processes that it leaves, and whether it raised an exception.
  module _ {A : Type 0} (kill_procs : List Procinfo → List Procinfo × Bool) where
    -- With whether an exception leaves it, which happens before the processes are killed.
    unfoldable pub do_recover : Recovery A → Recovery A × Bool
    unfolding stop_names recovered clear_flags
    do_recover d =
        let (stopped, failed) = stop_names process_types d.procinfos in
        let left : Recovery A = record d { in_recovery = true; procinfos = stopped } in
        let wound_down : Recovery A =
          if d.manage_processes then record d { procinfos = (kill_procs stopped).0 } else d in
        if skips d
        then (recovered d, false)
        else (if d.manage_processes && failed
            then (left, true)
            else (recovered (clear_flags wound_down), false))

    unfoldable pub alert_and_recover : String → Recovery A → Recovery A × Bool
    unfolding do_recover
    alert_and_recover extrainfo d =
        let (d', failed) = do_recover (record d { last_critical_error = extrainfo }) in
        (if failed then d' else record d' { transition_process_errors = [] }, failed)

    unfoldable pub do_terminate : Recovery A → Recovery A × Bool
    unfolding shut_all alert_and_recover complete_state_change
    do_terminate d =
        let (shut, failed) = shut_all d.procinfos in
        let (left, kill_fails) = kill_procs shut in
        let d' : Recovery A = if d.manage_processes then record d { procinfos = shut } else d in
        let d'' : Recovery A = if d.manage_processes then record d { procinfos = left } else d in
        let done : Recovery A = record d'' {
          component = complete_state_change d''.component.name "terminating" d''.component;
        } in
        if d.manage_processes && failed
        then alert_and_recover "An exception was thrown during the terminate transition" d'
        else (if d.manage_processes && kill_fails
            then alert_and_recover "An exception was thrown within kill_procs()" d''
            else (done, false))
