-- ===== src/Bodies/Diagram/Running.antt =====
-- rc/control/daqinterface.py: the states that `do_start_running` and `do_stop_running` end in.
use artdaq_daqinterface.Prelude.{
  String, refl, inl, ◌&&◌, Option, some, List, [], ◌∷◌, isin, if_both, option_both,
}
use artdaq_daqinterface.Component.{Component}
use artdaq_daqinterface.Command.{start_command, stop_command}
use artdaq_daqinterface.Bodies.{
  Daqinterface, returned, complete_as, may_raise, Servers, or_recover, readjust, command_or_recover,
}
use artdaq_daqinterface.Bodies.Steps.{all_steps, ◌next_step◌}
use artdaq_daqinterface.Bodies.Running.{
  Archiving, StartAnswers, StopAnswers, archive_info, keep_run_record, start_processes,
  stop_processes, start_run, do_start_running, do_stop_running,
}
use artdaq_daqinterface.Bodies.Diagram.{
  Open, Ends, run_steps-Ends, may_raise-Ends, recover_and_return-Ends, recover_and_go_on-Ends,
  or_recover-Ends, readjust-Ends, command_or_recover-Ends, complete_as-At,
}

module _ {A : Type 0} (servers : Servers) (before : Component A) (target : String) where
  archive_info-Ends :
      (a : Archiving) (extrainfo : String) (d : Daqinterface A)
      → Open before d
      → Ends before target (archive_info servers a extrainfo d)
  unfolding archive_info
  archive_info-Ends a extrainfo d h =
      let E = Ends before target in
      if_both E (a.external_run_control && a.info_exists)
        (if_both E a.copy_raises h
          (if_both E a.copy_exists h (recover_and_go_on-Ends before target servers extrainfo d h)))
        h

  keep_run_record-Ends :
      (w : StartAnswers) (run_number : String) (d : Daqinterface A)
      → Open before d
      → Ends before target (keep_run_record servers w run_number d)
  unfolding keep_run_record
  keep_run_record-Ends w run_number d h =
      let E = Ends before target in
      if_both E (isin run_number w.run_records) h (
        if_both E w.tmp_run_record_exists
          (run_steps-Ends before target
            (or_recover servers w.copytree_raises
                "Error: Attempt to copy temporary run record into permanent run record didn't work"
              ∷ may_raise w.cleanup_raises
              ∷ [])
            d
            (or_recover-Ends before target servers w.copytree_raises
                "Error: Attempt to copy temporary run record into permanent run record didn't work"
              next_step may_raise-Ends before target w.cleanup_raises
              next_step all_steps)
            h)
          (recover_and_return-Ends before target servers
            "Error in DAQInterface: unable to find temporary run records directory" d h))

  start_processes-Ends :
      (priorities : Option (List String)) (d : Daqinterface A)
      → Open before d
      → Ends before target (start_processes servers priorities d)
  unfolding start_processes
  start_processes-Ends priorities d h =
      if_both (Ends before target) d.recovery.manage_processes
        (run_steps-Ends before target
          (readjust servers priorities
            ∷ command_or_recover servers start_command
                "An exception was thrown when attempting to send the \"start\" transition"
            ∷ [])
          d
          (readjust-Ends before target servers priorities
            next_step (λ d' h'.
                command_or_recover-Ends before target servers start_command
                  "An exception was thrown when attempting to send the \"start\" transition" d'
                  (λ s. refl) h')
            next_step all_steps)
          h)
        h

  stop_processes-Ends :
      (priorities : Option (List String)) (d : Daqinterface A)
      → Open before d
      → Ends before target (stop_processes servers priorities d)
  unfolding stop_processes
  stop_processes-Ends priorities d h =
      if_both (Ends before target) d.recovery.manage_processes
        (run_steps-Ends before target
          (readjust servers priorities
            ∷ command_or_recover servers stop_command
                "An exception was thrown when attempting to send the \"stop\" transition"
            ∷ [])
          d
          (readjust-Ends before target servers priorities
            next_step (λ d' h'.
                command_or_recover-Ends before target servers stop_command
                  "An exception was thrown when attempting to send the \"stop\" transition" d'
                  (λ s. refl) h')
            next_step all_steps)
          h)
        h

module _ {A : Type 0} (servers : Servers) (before : Component A) where
  start_run-Ends :
      (w : StartAnswers) (run_number : String) (d : Daqinterface A)
      → Open before d
      → Ends before "running" (start_run servers w run_number d)
  unfolding start_run
  start_run-Ends w run_number d h =
      run_steps-Ends before "running"
        (may_raise w.integrity_check_raises
          ∷ keep_run_record servers w run_number
          ∷ or_recover servers w.put_config_info_raises
              "An exception was thrown when trying to save configuration info"
          ∷ archive_info servers w.archiving "Problem copying the information to archive"
          ∷ may_raise w.trace_script_raises
          ∷ start_processes servers w.boardreader_priorities
          ∷ may_raise w.start_datataking_raises
          ∷ (λ d'. may_raise (d'.recovery.manage_processes && w.softlink_raises) d')
          ∷ (λ d'. returned (complete_as "starting" d'))
          ∷ [])
        (record d { run_number = some run_number })
        (may_raise-Ends before "running" w.integrity_check_raises
          next_step keep_run_record-Ends servers before "running" w run_number
          next_step or_recover-Ends before "running" servers w.put_config_info_raises
              "An exception was thrown when trying to save configuration info"
          next_step archive_info-Ends servers before "running" w.archiving
              "Problem copying the information to archive"
          next_step may_raise-Ends before "running" w.trace_script_raises
          next_step start_processes-Ends servers before "running" w.boardreader_priorities
          next_step may_raise-Ends before "running" w.start_datataking_raises
          next_step (λ d' h'.
              may_raise-Ends before "running" (d'.recovery.manage_processes && w.softlink_raises) d'
                h')
          next_step (λ d' h'. inl (complete_as-At before "starting" d' h'))
          next_step all_steps)
        h

  pub do_start_running-Ends :
      (run_number_of : Option A → Option String) (w : StartAnswers) (d : Daqinterface A)
      → Open before d
      → Ends before "running" (do_start_running servers run_number_of w d)
  unfolding do_start_running
  do_start_running-Ends run_number_of w d h =
      option_both (Ends before "running") (run_number_of d.recovery.component.run_params) h
        (λ run_number. start_run-Ends w run_number d h)

  pub do_stop_running-Ends :
      (w : StopAnswers) (d : Daqinterface A)
      → Open before d
      → Ends before "ready" (do_stop_running servers w d)
  unfolding do_stop_running
  do_stop_running-Ends w d h =
      run_steps-Ends before "ready"
        (may_raise w.save_metadata_raises
          ∷ or_recover servers w.put_config_info_raises
              "An exception was thrown when trying to save configuration info"
          ∷ may_raise w.stop_datataking_raises
          ∷ archive_info servers w.archiving "Problem copying the information to archive"
          ∷ stop_processes servers w.boardreader_priorities
          ∷ may_raise w.trace_script_raises
          ∷ (λ d'. returned (complete_as "stopping" d'))
          ∷ [])
        d
        (may_raise-Ends before "ready" w.save_metadata_raises
          next_step or_recover-Ends before "ready" servers w.put_config_info_raises
              "An exception was thrown when trying to save configuration info"
          next_step may_raise-Ends before "ready" w.stop_datataking_raises
          next_step archive_info-Ends servers before "ready" w.archiving
              "Problem copying the information to archive"
          next_step stop_processes-Ends servers before "ready" w.boardreader_priorities
          next_step may_raise-Ends before "ready" w.trace_script_raises
          next_step (λ d' h'. inl (complete_as-At before "stopping" d' h'))
          next_step all_steps)
        h
