-- ===== src/Bodies.antt =====
-- rc/control/daqinterface.py: the bodies of the transitions, `do_boot`, `do_config`,
-- `do_start_running` and `do_stop_running`, which `runner` calls. What they share.
pub mod Steps
pub mod Running
pub mod Processes
pub mod Reading
pub mod Launching
pub mod Booting
pub mod Archive
pub mod Documents
pub mod Configuring
pub mod Diagram
pub mod Served
pub mod Waiting
pub mod Records
pub mod Prepared
mod Tests
use artdaq_daqinterface.Prelude.{
  ℕ, String, Bool, true, false, Option, none, some, List, [], ◌∷◌, Dict,
}
use artdaq_daqinterface.Procinfo.{Procinfo}
use artdaq_daqinterface.Bookkeeping.Graph.{Subsystem}
use artdaq_daqinterface.Component.{complete_state_change}
use artdaq_daqinterface.Command.{
  Command, Call, Reply, CommandOutcome, completed, never_ends, Interface, do_command,
}
use artdaq_daqinterface.Recover.{PidSearch, Query, Recovery, alert_and_recover}
use artdaq_daqinterface.Processes.{readjust_process_priorities}

-- The fields of DAQInterface that the bodies use. `daq_comp_list` is empty where it is missing, and
-- `config_prep_thread` is none where it is None: else it has the configurations that the thread of
-- `_do_config_prepare` read when it started.
pub record Daqinterface (A : Type 0) : Type 0 where
  pub recovery : Recovery A
  pub subsystems : Dict Subsystem
  pub exception : Bool
  pub daq_comp_list : Dict (List String)
  pub boot_completed : Bool
  pub run_number : Option String
  pub subconfigs_for_run : List String
  pub config_prep_thread : Option (List String)
  pub config_prepared : Bool

-- The loops that may not end: the one that orders the subsystems, the one that waits for the status
-- of a process, and one without fuel.
pub data Endless : Type 0 where
  no_order : Dict Subsystem → Endless
  no_status : (status_of : Procinfo → Option String) → List Procinfo → Endless
  no_fuel : Endless

-- How far a body has come: it goes on, it has returned, an exception has left it, or it never ends.
pub data Progress (A : Type 0) : Type 0 where
  goes_on : Daqinterface A → Progress A
  returned : Daqinterface A → Progress A
  raised_out : Daqinterface A → Progress A
  endless : Endless → Progress A

module _ {A : Type 0} where
  infixl 5 ◌then_step◌
  abbrev pub ◌then_step◌ : Progress A → (Daqinterface A → Progress A) → Progress A
  ◌then_step◌ (goes_on d) next = next d
  ◌then_step◌ (returned d) next = returned d
  ◌then_step◌ (raised_out d) next = raised_out d
  ◌then_step◌ (endless loop) next = endless loop

  -- Statements one after the other.
  unfoldable pub run_steps : List (Daqinterface A → Progress A) → Daqinterface A → Progress A
  run_steps [] d = goes_on d
  run_steps (step ∷ steps) d = step d then_step λ d'. run_steps steps d'

  -- A statement that changes none of the fields, and raises where `fails`.
  abbrev pub may_raise : Bool → Daqinterface A → Progress A
  may_raise true d = raised_out d
  may_raise false d = goes_on d

  abbrev pub with_component : Daqinterface A → Interface A → Daqinterface A
  with_component d i = record d {
    recovery = record (d.recovery) {
      component = i.component;
      procinfos = i.procinfos;
      transition_process_errors = i.transition_process_errors;
    };
    exception = i.exception;
  }

  abbrev pub interface : Daqinterface A → Interface A
  interface d = record {
    component = d.recovery.component;
    procinfos = d.recovery.procinfos;
    subsystems = d.subsystems;
    exception = d.exception;
    transition_process_errors = d.recovery.transition_process_errors;
  }

  -- `self.complete_state_change(self.name, requested)`
  unfoldable pub complete_as : String → Daqinterface A → Daqinterface A
  unfolding complete_state_change
  complete_as requested d =
      let c = d.recovery.component in
      record d {
        recovery = record (d.recovery) { component = complete_state_change c.name requested c };
      }

-- What the bodies call: the servers of the processes, their operating systems, and `re.search`.
pub record Servers : Type 0 where
  pub find_pid : Procinfo → PidSearch
  pub ask : Procinfo → Query → Reply
  pub kill_procs : List Procinfo → List Procinfo × Bool
  pub call : Procinfo → Call → Reply
  pub reads : Procinfo → ℕ → String
  pub search : String → String → Bool
  pub tmp_run_record : String

module _ {A : Type 0} (servers : Servers) where
  -- `self.alert_and_recover(extrainfo)`, with whether an exception leaves it.
  unfoldable pub recover_from : String → Daqinterface A → Daqinterface A × Bool
  unfolding alert_and_recover
  recover_from extrainfo d =
      let (r, failed) =
        alert_and_recover servers.find_pid servers.ask servers.kill_procs extrainfo d.recovery in
      (record d { recovery = r }, failed)

  -- What follows a recovery, where no exception leaves it.
  abbrev pub after_recovery : (Daqinterface A → Progress A) → Daqinterface A × Bool → Progress A
  after_recovery next (d, false) = next d
  after_recovery next (d, true) = raised_out d

  -- `self.alert_and_recover(extrainfo)` and `return`.
  abbrev pub recover_and_return : String → Daqinterface A → Progress A
  recover_and_return extrainfo d = after_recovery (λ d'. returned d') (recover_from extrainfo d)

  -- `self.alert_and_recover(extrainfo)` where the statements behind it are run.
  abbrev pub recover_and_go_on : String → Daqinterface A → Progress A
  recover_and_go_on extrainfo d = after_recovery (λ d'. goes_on d') (recover_from extrainfo d)

  -- A call in a `try` block whose `except` branch recovers and returns.
  abbrev pub or_recover : Bool → String → Daqinterface A → Progress A
  or_recover true extrainfo d = recover_and_return extrainfo d
  or_recover false extrainfo d = goes_on d

  -- The priorities of the boardreaders; the exception leaves the body.
  unfoldable pub readjust : Option (List String) → Daqinterface A → Progress A
  unfolding readjust_process_priorities
  readjust priority_list d =
      let (ps, fault) =
        readjust_process_priorities servers.search priority_list d.recovery.procinfos in
      let d' : Daqinterface A = record d { recovery = record (d.recovery) { procinfos = ps } } in
      elim fault [ none ↦ goes_on d' | some label ↦ raised_out d' ]

  abbrev pub after_command : String → Daqinterface A → Interface A × CommandOutcome → Progress A
  after_command extrainfo d (i, completed) = goes_on (with_component d i)
  after_command extrainfo d (i, never_ends) = endless (no_order d.subsystems)
  after_command extrainfo d (i, failed) = recover_and_return extrainfo (with_component d i)

  -- `self.do_command(command)` in a `try` block whose `except` branch recovers and returns.
  unfoldable pub command_or_recover : Command → String → Daqinterface A → Progress A
  unfolding do_command recover_from
  command_or_recover c extrainfo d =
      after_command extrainfo d
        (do_command servers.call servers.reads servers.tmp_run_record c (interface d))
