-- ===== src/Command.antt =====
-- rc/control/daqinterface.py, `do_command`: a transition is sent to the processes.
mod Order
pub mod Sources
pub mod Ends
pub mod Silence
pub mod States
mod Tests
unfoldable pub use Order.*
use artdaq_daqinterface.Prelude.{
  ℕ, String, ◌=ₛ◌, Bool, true, false, not, ◌&&◌, ◌||◌, Option, none, some, List, [], ◌∷◌, ◌++◌,
  Dict, isin, occurs, append_text, ltb, ◌==◌, if◌then◌else◌,
}
use artdaq_daqinterface.Procinfo.{Procinfo}
use artdaq_daqinterface.Fhicl.{take_text, reversed}
use artdaq_daqinterface.Bookkeeping.Graph.{Subsystem}
use artdaq_daqinterface.Component.{Component, complete_state_change}
use artdaq_daqinterface.Transition.{is_fine, Checked, check_proc_transition}

pub data Command : Type 0 where
  init_command start_command pause_command resume_command stop_command shutdown_command : Command

abbrev pub target_states : Command → String
target_states init_command = "Ready"
target_states start_command = "Running"
target_states pause_command = "Paused"
target_states resume_command = "Running"
target_states stop_command = "Ready"
target_states shutdown_command = "Stopped"

abbrev pub verbing_to_states : Command → String
verbing_to_states init_command = "Configuring"
verbing_to_states start_command = "Starting"
verbing_to_states pause_command = "Pausing"
verbing_to_states resume_command = "Resuming"
verbing_to_states stop_command = "Stopping"
verbing_to_states shutdown_command = "Shutting down"

-- The calls of a process's server: that of a command, and the second call to start, with the run
-- number as a text.
pub data Call : Type 0 where
  transition : Command → Call
  start_again : Call

-- A call returns a text or raises an exception.
pub data Reply : Type 0 where
  replied : String → Reply
  raised : Reply

-- What the loops of the transition keep. `sent` are the labels of the processes whose threads were
-- run, with the value of `exception` that the thread saw; `key_error` is a failed look-up of a
-- timeout, which the thread's `join` raises.
pub record Sending : Type 0 where
  pub procinfos : List Procinfo
  pub exception : Bool
  pub key_error : Bool
  pub sent : List String

abbrev pub needs_argument : Command → String → Bool
needs_argument start_command s = occurs "The start message requires the run number as an argument" s
needs_argument c s = false

abbrev pub proctypes : List String
proctypes = "RoutingManager" ∷ "Dispatcher" ∷ "DataLogger" ∷ "EventBuilder" ∷ "BoardReader" ∷ []

-- `command == "Stop" or command == "Pause" or command == "Shutdown"`
abbrev pub is_downward : Command → Bool
is_downward stop_command = true
is_downward pause_command = true
is_downward shutdown_command = true
is_downward c = false

abbrev pub proctypes_in_order : Command → List String
unfolding reversed
proctypes_in_order c = if is_downward c then reversed proctypes else proctypes

-- The order of the subsystems is from the sources on, for these commands.
unfoldable pub in_direction : Command → List String → List String
unfolding reversed
in_direction c l = if is_downward c then l else reversed l

-- `sorted(priorities_used.keys())`
abbrev pub add_priority : ℕ → List ℕ → List ℕ
add_priority n [] = n ∷ []
add_priority n (m ∷ ms) =
    let later = add_priority n ms in
    if n == m then m ∷ ms else (if ltb n m then n ∷ m ∷ ms else m ∷ later)

module _ (call : Procinfo → Call → Reply) (tmp_run_record : String) (c : Command) where
  -- The reply cut short where it holds a whole FHiCL document.
  unfoldable pub truncated : String → String
  unfolding take_text append_text
  truncated s =
      if occurs "with ParameterSet" s
      then append_text (take_text 200 s) (
          append_text " // REMAINDER TRUNCATED BY DAQINTERFACE, SEE "
            (append_text tmp_run_record " FOR FULL FHiCL DOCUMENT"))
      else s

  unfoldable pub settle : Procinfo → String → Procinfo × Bool
  unfolding truncated is_fine
  settle p s =
      let s' = truncated s in
      let p' : Procinfo = record p { lastreturned = s' } in
      (if is_fine (target_states c) s' then record p' { state = target_states c } else p', false)

  -- The second call and what follows it.
  unfoldable pub second_call : Procinfo → Reply → Procinfo × Bool
  unfolding settle
  second_call p raised = (p, true)
  second_call p (replied s) = settle p s

  unfoldable pub first_call : Procinfo → Reply → Procinfo × Bool
  unfolding second_call
  first_call p raised = (p, true)
  first_call p (replied s) =
      if needs_argument c s
      then second_call (record p { lastreturned = s }) (call p start_again)
      else settle p s

  -- The `try` block: the process, and whether an exception was caught.
  unfoldable pub send_to : Procinfo → Procinfo × Bool
  unfolding first_call
  send_to p =
      let p' : Procinfo = record p { state = verbing_to_states c } in
      first_call p' (call p' (transition c))

  -- `process_command` for the first process of the list: the process, `exception`, and whether the
  -- look-up of the timeout fails. A thread that sees `exception` set does nothing.
  unfoldable pub process_command : Procinfo → Bool → Procinfo × Bool × Bool
  unfolding send_to isin
  process_command p exception =
      let (p', caught) = send_to p in
      if exception
      then (p, true, false)
      else (if isin p.name proctypes then (p', caught, false) else (p, false, true))

  -- The threads of a bucket, which are run in the order of the list.
  unfoldable pub run_bucket : (Procinfo → Bool) → Sending → List Procinfo → Sending
  unfolding process_command
  run_bucket in_bucket s [] = s
  run_bucket in_bucket s (p ∷ ps) =
      let (p', exception, key_error) = process_command p s.exception in
      let after : Sending = record {
        procinfos = s.procinfos ++ p' ∷ [];
        exception = exception;
        key_error = s.key_error || key_error;
        sent = s.sent ++ p.label ∷ [];
      } in
      run_bucket in_bucket
        (if in_bucket p then after else record s { procinfos = s.procinfos ++ p ∷ [] }) ps

  -- A failed `join` ends the transition, so that no later bucket is run.
  unfoldable pub send_bucket : (Procinfo → Bool) → Sending → Sending
  unfolding run_bucket
  send_bucket in_bucket s =
      let after = run_bucket in_bucket (record s { procinfos = [] }) s.procinfos in
      if s.key_error then s else after

  unfoldable pub in_group : String → String → Procinfo → Bool
  in_group ss proctype p = occurs proctype p.name && (p.subsystem =ₛ ss)

  unfoldable pub priority_rankings : String → String → List Procinfo → List ℕ
  unfolding in_group
  priority_rankings ss proctype [] = []
  priority_rankings ss proctype (p ∷ ps) =
      let rest = priority_rankings ss proctype ps in
      if in_group ss proctype p then add_priority p.priority rest else rest

  unfoldable pub send_priorities : String → String → List ℕ → Sending → Sending
  unfolding send_bucket in_group
  send_priorities ss proctype [] s = s
  send_priorities ss proctype (n ∷ ns) s =
      send_priorities ss proctype ns
        (send_bucket (λ p. in_group ss proctype p && (p.priority == n)) s)

  unfoldable pub send_proctypes : String → List String → Sending → Sending
  unfolding send_priorities priority_rankings
  send_proctypes ss [] s = s
  send_proctypes ss (proctype ∷ rest) s =
      send_proctypes ss rest
        (send_priorities ss proctype (priority_rankings ss proctype s.procinfos) s)

  unfoldable pub send_subsystems : List String → Sending → Sending
  unfolding send_proctypes proctypes_in_order
  send_subsystems [] s = s
  send_subsystems (ss ∷ rest) s = send_subsystems rest (send_proctypes ss (proctypes_in_order c) s)

-- The ways in which a transition ends; `never_ends` is the loop that orders the subsystems.
pub data CommandOutcome : Type 0 where
  never_ends key_error exception_thrown not_achieved completed : CommandOutcome

-- The fields of DAQInterface that a transition uses.
pub record Interface (A : Type 0) : Type 0 where
  pub component : Component A
  pub procinfos : List Procinfo
  pub subsystems : Dict Subsystem
  pub exception : Bool
  pub transition_process_errors : List String

-- `proc_endtimes[procinfo.label]` for all processes.
unfoldable pub all_sent : List String → List Procinfo → Bool
unfolding isin
all_sent sent [] = true
all_sent sent (p ∷ ps) = isin p.label sent && all_sent sent ps

module _ {A : Type 0} where
  -- The end of the function; `verbing` stays empty for the command to shut down, where the assignment
  -- is written as a comparison.
  unfoldable pub complete : Command → Interface A → Interface A
  unfolding complete_state_change
  complete pause_command d = record d {
    component = complete_state_change d.component.name "pausing" d.component;
  }
  complete resume_command d = record d {
    component = complete_state_change d.component.name "resuming" d.component;
  }
  complete shutdown_command d = record d {
    component = complete_state_change d.component.name "" d.component;
  }
  complete c d = d

  -- From the check of the processes on.
  unfoldable pub after_check : Command → Interface A → Checked → Interface A × CommandOutcome
  unfolding complete
  after_check c d checked =
      let d' : Interface A = record d {
        procinfos = checked.procinfos;
        transition_process_errors = checked.transition_process_errors;
      } in
      if checked.raised then (d', not_achieved) else (complete c d', completed)

  module _ (call : Procinfo → Call → Reply) (reads : Procinfo → ℕ → String)
      (tmp_run_record : String) (c : Command) where
    -- From the end of the loops on.
    unfoldable pub after_sending : Interface A → Sending → Interface A × CommandOutcome
    unfolding all_sent after_check check_proc_transition
    after_sending d s =
        let d' : Interface A = record d { procinfos = s.procinfos; exception = s.exception } in
        if s.key_error
        then (d', key_error)
        else (if s.exception
            then (d', exception_thrown)
            else (if not (all_sent s.sent s.procinfos)
                then (d', key_error)
                else after_check c d' (
                    check_proc_transition reads (target_states c) s.procinfos
                      d'.transition_process_errors)))

    unfoldable pub do_command : Interface A → Interface A × CommandOutcome
    unfolding subsystems_in_order in_direction send_subsystems after_sending
    do_command d =
        let d' : Interface A = record d { transition_process_errors = [] } in
        elim (subsystems_in_order d'.subsystems) [
          | none ↦ (d', never_ends)
          | some order ↦ after_sending d' (
              send_subsystems call tmp_run_record c (in_direction c order) (record {
                procinfos = d'.procinfos;
                exception = d'.exception;
                key_error = false;
                sent = [];
              }))
        ]
