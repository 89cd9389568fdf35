-- ===== src/Bodies/Running.antt =====
-- rc/control/daqinterface.py: `do_start_running` and `do_stop_running`.
use artdaq_daqinterface.Prelude.{
  String, Bool, ◌&&◌, Option, none, some, List, [], ◌∷◌, isin, if◌then◌else◌,
}
use artdaq_daqinterface.Command.{start_command, stop_command}
use artdaq_daqinterface.Bodies.{
  Daqinterface, Progress, goes_on, returned, raised_out, run_steps, may_raise, complete_as, Servers,
  recover_from, recover_and_return, recover_and_go_on, or_recover, readjust, command_or_recover,
}

-- The copy of the file of an external run control: whether there is such a file, whether copying it
-- raises an exception, and whether the copy is there afterwards.
pub record Archiving : Type 0 where
  pub external_run_control : Bool
  pub info_exists : Bool
  pub copy_raises : Bool
  pub copy_exists : Bool

-- What the file system, the environment and the functions of the experiment answer to a start.
pub record StartAnswers : Type 0 where
  pub integrity_check_raises : Bool
  pub run_records : List String
  pub tmp_run_record_exists : Bool
  pub copytree_raises : Bool
  pub cleanup_raises : Bool
  pub put_config_info_raises : Bool
  pub archiving : Archiving
  pub trace_script_raises : Bool
  pub boardreader_priorities : Option (List String)
  pub start_datataking_raises : Bool
  pub softlink_raises : Bool

pub record StopAnswers : Type 0 where
  pub save_metadata_raises : Bool
  pub put_config_info_raises : Bool
  pub stop_datataking_raises : Bool
  pub archiving : Archiving
  pub boardreader_priorities : Option (List String)
  pub trace_script_raises : Bool

module _ {A : Type 0} (servers : Servers) where
  -- Where the copy is not there, a recovery is run, and the body goes on.
  unfoldable pub archive_info : Archiving → String → Daqinterface A → Progress A
  unfolding run_steps recover_from
  archive_info a extrainfo d =
      let copied = if a.copy_exists then goes_on d else recover_and_go_on servers extrainfo d in
      if a.external_run_control && a.info_exists
      then (if a.copy_raises then raised_out d else copied)
      else goes_on d

  -- The run record: the directory of the run must not exist, and that of the configuration must.
  unfoldable pub keep_run_record : StartAnswers → String → Daqinterface A → Progress A
  unfolding run_steps recover_from isin
  keep_run_record w run_number d =
      let copied =
        run_steps
          (or_recover servers w.copytree_raises
              "Error: Attempt to copy temporary run record into permanent run record didn't work"
            ∷ may_raise w.cleanup_raises
            ∷ [])
          d in
      if isin run_number w.run_records
      then raised_out d
      else (if w.tmp_run_record_exists
          then copied
          else recover_and_return servers
              "Error in DAQInterface: unable to find temporary run records directory" d)

  -- The transition of the processes that are managed.
  unfoldable pub start_processes : Option (List String) → Daqinterface A → Progress A
  unfolding run_steps readjust command_or_recover
  start_processes priorities d =
      let started =
        run_steps
          (readjust servers priorities
            ∷ command_or_recover servers start_command
                "An exception was thrown when attempting to send the \"start\" transition"
            ∷ [])
          d in
      if d.recovery.manage_processes then started else goes_on d

  unfoldable pub stop_processes : Option (List String) → Daqinterface A → Progress A
  unfolding run_steps readjust command_or_recover
  stop_processes priorities d =
      let stopped =
        run_steps
          (readjust servers priorities
            ∷ command_or_recover servers stop_command
                "An exception was thrown when attempting to send the \"stop\" transition"
            ∷ [])
          d in
      if d.recovery.manage_processes then stopped else goes_on d

  -- From the run number on, which has been looked up in the arguments.
  unfoldable pub start_run : StartAnswers → String → Daqinterface A → Progress A
  unfolding run_steps keep_run_record recover_from archive_info start_processes complete_as
  start_run w run_number d =
      run_steps
        (may_raise w.integrity_check_raises
          ∷ keep_run_record w run_number
          ∷ or_recover servers w.put_config_info_raises
              "An exception was thrown when trying to save configuration info"
          ∷ archive_info w.archiving "Problem copying the information to archive"
          ∷ may_raise w.trace_script_raises
          ∷ start_processes w.boardreader_priorities
          ∷ may_raise w.start_datataking_raises
          ∷ (λ d'. may_raise (d'.recovery.manage_processes && w.softlink_raises) d')
          ∷ (λ d'. returned (complete_as "starting" d'))
          ∷ [])
        (record d { run_number = some run_number })

  -- `run_number_of` looks up the run number in the arguments of the request.
  unfoldable pub do_start_running :
      (Option A → Option String) → StartAnswers → Daqinterface A → Progress A
  unfolding start_run
  do_start_running run_number_of w d = elim (run_number_of d.recovery.component.run_params) [
    | none ↦ raised_out d
    | some run_number ↦ start_run w run_number d
  ]

  unfoldable pub do_stop_running : StopAnswers → Daqinterface A → Progress A
  unfolding run_steps recover_from archive_info stop_processes complete_as
  do_stop_running w d =
      run_steps
        (may_raise w.save_metadata_raises
          ∷ or_recover servers w.put_config_info_raises
              "An exception was thrown when trying to save configuration info"
          ∷ may_raise w.stop_datataking_raises
          ∷ archive_info w.archiving "Problem copying the information to archive"
          ∷ stop_processes w.boardreader_priorities
          ∷ may_raise w.trace_script_raises
          ∷ (λ d'. returned (complete_as "stopping" d'))
          ∷ [])
        d
