-- ===== src/Bodies/Diagram/Over.antt =====
-- rc/control/daqinterface.py: the bodies of the transitions come to an end.
use artdaq_daqinterface.Prelude.{
  String, ◌&&◌, Option, some, List, [], ◌∷◌, if_both, option_both, true, false, none, length, ◌==◌,
  if◌then◌else◌,
}
use artdaq_daqinterface.Bodies.{
  Daqinterface, Progress, returned, complete_as, may_raise, Servers, or_recover, goes_on, run_steps,
}
use artdaq_daqinterface.Bodies.Steps.{IsOver, run_steps-IsOver}
use artdaq_daqinterface.Bodies.Running.{
  StartAnswers, StopAnswers, archive_info, keep_run_record, start_processes, stop_processes,
  start_run, do_start_running, do_stop_running,
}
use artdaq_daqinterface.Procinfo.{Procinfo}
use artdaq_daqinterface.Bodies.Reading.{
  BootAnswers, reset_variables, find_processes, with_procinfos,
}
use artdaq_daqinterface.Bodies.Launching.{launch_processes}
use artdaq_daqinterface.Bodies.Booting.{
  check_viewer, launch_viewer, add_ranks, boot_processes, do_boot_impl, do_boot,
}
use artdaq_daqinterface.Bodies.Documents.{ConfigAnswers, do_config_prepare}
use artdaq_daqinterface.Bodies.Configuring.{
  prepare_now, init_processes, init_and_complete, after_thread, configure_as, do_config,
}

module _ {A : Type 0} (servers : Servers) where
  start_run-IsOver :
      (w : StartAnswers) (run_number : String) (d : Daqinterface A)
      → IsOver (start_run servers w run_number d)
  unfolding start_run
  start_run-IsOver w run_number d =
      run_steps-IsOver
        (may_raise w.integrity_check_raises
          ∷ keep_run_record servers w run_number
          ∷ or_recover servers w.put_config_info_raises
              "An exception was thrown when trying to save configuration info"
          ∷ archive_info servers w.archiving "Problem copying the information to archive"
          ∷ may_raise w.trace_script_raises
          ∷ start_processes servers w.boardreader_priorities
          ∷ may_raise w.start_datataking_raises
          ∷ (λ d'. may_raise (d'.recovery.manage_processes && w.softlink_raises) d')
          ∷ [])
        (λ d'. returned (complete_as "starting" d')) (record d { run_number = some run_number })
        (λ d'. tt)

  pub do_start_running-IsOver :
      (run_number_of : Option A → Option String) (w : StartAnswers) (d : Daqinterface A)
      → IsOver (do_start_running servers run_number_of w d)
  unfolding do_start_running
  do_start_running-IsOver run_number_of w d =
      option_both (λ (p : Progress A). IsOver p) (run_number_of d.recovery.component.run_params) tt
        (λ run_number. start_run-IsOver w run_number d)

  pub do_stop_running-IsOver :
      (w : StopAnswers) (d : Daqinterface A) → IsOver (do_stop_running servers w d)
  unfolding do_stop_running
  do_stop_running-IsOver w d =
      run_steps-IsOver
        (may_raise w.save_metadata_raises
          ∷ or_recover servers w.put_config_info_raises
              "An exception was thrown when trying to save configuration info"
          ∷ may_raise w.stop_datataking_raises
          ∷ archive_info servers w.archiving "Problem copying the information to archive"
          ∷ stop_processes servers w.boardreader_priorities
          ∷ may_raise w.trace_script_raises
          ∷ [])
        (λ d'. returned (complete_as "stopping" d')) d (λ d'. tt)

module _ {A : Type 0} (servers : Servers) (w : BootAnswers) where
  boot_processes-IsOver : (d : Daqinterface A) → IsOver (boot_processes servers w d)
  unfolding boot_processes
  boot_processes-IsOver d =
      run_steps-IsOver
        (launch_viewer servers w w.msgviewer
          ∷ (λ d'.
              if d'.recovery.manage_processes then launch_processes servers w d' else goes_on d')
          ∷ check_viewer servers w w.msgviewer
          ∷ (λ d'.
              or_recover servers (d'.recovery.manage_processes && w.logfiles_raise)
                "Unable to find logfiles for at least some of the artdaq processes" d')
          ∷ (λ d'.
              if w.external_run_control then add_ranks servers w w.ranks_file d' else goes_on d')
          ∷ [])
        (λ d'. returned (record (complete_as "booting" d') { boot_completed = true })) d (λ d'. tt)

  pub do_boot-IsOver : (d : Daqinterface A) → IsOver (do_boot servers w d)
  unfolding do_boot do_boot_impl
  do_boot-IsOver d =
      if_both (λ (p : Progress A). IsOver p) (length d.daq_comp_list == 0) tt
        (run_steps-IsOver (may_raise w.boot_file_raises ∷ find_processes w ∷ [])
          (boot_processes servers w) (reset_variables (record d { boot_completed = false }))
          boot_processes-IsOver)

module _ {A : Type 0} (servers : Servers) (w : ConfigAnswers) where
  init_and_complete-IsOver : (d : Daqinterface A) → IsOver (init_and_complete servers w d)
  unfolding init_and_complete
  init_and_complete-IsOver d =
      run_steps-IsOver (init_processes servers w ∷ [])
        (λ d'. returned (complete_as "configuring" d')) d (λ d'. tt)

  sequentially-IsOver :
      (d : Daqinterface A)
      → IsOver (run_steps (prepare_now servers w ∷ init_and_complete servers w ∷ []) d)
  sequentially-IsOver d =
      run_steps-IsOver (prepare_now servers w ∷ []) (init_and_complete servers w) d
        init_and_complete-IsOver

  after_thread-IsOver :
      (d : Daqinterface A) (o : Option (List Procinfo)) → IsOver (after_thread servers w d o)
  unfolding after_thread
  after_thread-IsOver d none = sequentially-IsOver d
  after_thread-IsOver d (some ps) =
      run_steps-IsOver (may_raise w.record_directory_raises ∷ []) (init_and_complete servers w)
        (with_procinfos ps (record d { config_prepared = true })) init_and_complete-IsOver

  configure_as-IsOver :
      (configs : List String) (d : Daqinterface A) → IsOver (configure_as servers w configs d)
  unfolding configure_as
  configure_as-IsOver configs d =
      let d' : Daqinterface A = record d {
        subconfigs_for_run = configs;
        config_prep_thread = none;
      } in
      option_both (λ (p : Progress A). IsOver p) d.config_prep_thread (sequentially-IsOver d')
        (λ read.
          after_thread-IsOver d' (do_config_prepare w read d.subsystems d.recovery.procinfos))

  pub do_config-IsOver :
      (configs_of : Option A → Option (List String)) (d : Daqinterface A)
      → IsOver (do_config servers w configs_of d)
  unfolding do_config
  do_config-IsOver configs_of d =
      let d' : Daqinterface A = record d {
        recovery = record (d.recovery) { transition_process_errors = [] };
      } in
      option_both (λ (p : Progress A). IsOver p) (configs_of d.recovery.component.run_params) tt
        (λ configs. configure_as-IsOver configs d')
