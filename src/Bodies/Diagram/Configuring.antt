-- ===== src/Bodies/Diagram/Configuring.antt =====
-- rc/control/daqinterface.py: the states that `do_config` ends in.
use artdaq_daqinterface.Prelude.{
  String, refl, inl, true, Option, none, some, List, [], ◌∷◌, ◌++◌, if◌then◌else◌, if_both,
  option_both,
}
use artdaq_daqinterface.Procinfo.{Procinfo}
use artdaq_daqinterface.Component.{Component}
use artdaq_daqinterface.Command.{init_command}
use artdaq_daqinterface.Bodies.{
  Daqinterface, Progress, goes_on, returned, complete_as, run_steps, may_raise, Servers, readjust,
  command_or_recover,
}
use artdaq_daqinterface.Bodies.Steps.{all_steps, ◌next_step◌}
use artdaq_daqinterface.Bodies.Reading.{revert_to_before, with_procinfos}
use artdaq_daqinterface.Bodies.Archive.{
  Archived, all_taken, call_raised, unsuccessful, archive_all, after_archiving, archive_documents,
  fhicl_documents, contents_document,
}
use artdaq_daqinterface.Bodies.Documents.{
  ConfigInfo, ConfigAnswers, finds_repeated, reformat_processes, bookkeep_processes,
  do_config_prepare,
}
use artdaq_daqinterface.Bodies.Configuring.{
  Resolving, resolved_all, missing_fhicl, update_failed, resolve_documents, or_raise,
  kept_or_recover, after_resolving, prepare_from_info, prepare_now, archive_run, init_processes,
  init_and_complete, after_thread, configure_as, do_config,
}
use artdaq_daqinterface.Bodies.Diagram.{
  Open, Ends, run_steps-Ends, may_raise-Ends, recover_and_return-Ends, recover_and_go_on-Ends,
  readjust-Ends, command_or_recover-Ends, complete_as-At,
}
use artdaq_daqinterface.Bodies.Diagram.Booting.{revert-Settled}

module _ {A : Type 0} (servers : Servers) (w : ConfigAnswers) (before : Component A) where
  abbrev E : Progress A → Type 0
  E = Ends before "ready"

  or_raise-Ends :
      (o : Option (List Procinfo)) (d : Daqinterface A) → Open before d → E (or_raise servers w o d)
  or_raise-Ends none d h = h
  or_raise-Ends (some ps) d h = h

  kept_or_recover-Ends :
      (o : Option (List Procinfo)) (d : Daqinterface A)
      → Open before d
      → E (kept_or_recover servers w o d)
  unfolding kept_or_recover
  kept_or_recover-Ends none d h =
      recover_and_return-Ends before "ready" servers
        "An exception was thrown when performing bookkeeping on the process FHiCL documents" d h
  kept_or_recover-Ends (some ps) d h = h

  after_resolving-Ends :
      (d : Daqinterface A) (r : Resolving) → Open before d → E (after_resolving servers w d r)
  unfolding after_resolving
  after_resolving-Ends d (resolved_all ps) h = h
  after_resolving-Ends d (missing_fhicl label) h = revert-Settled before "ready" d h
  after_resolving-Ends d (update_failed label) h =
      recover_and_return-Ends before "ready" servers
        "An exception was thrown when creating the process FHiCL documents" d h

  prepare_from_info-Ends :
      (d : Daqinterface A) (o : Option ConfigInfo)
      → Open before d
      → E (prepare_from_info servers w d o)
  unfolding prepare_from_info
  prepare_from_info-Ends d none h = revert-Settled before "ready" d h
  prepare_from_info-Ends d (some info) h =
      run_steps-Ends before "ready"
        (may_raise (finds_repeated info.files [])
          ∷ (λ d'. after_resolving servers w d' (resolve_documents w info 0 d'.recovery.procinfos))
          ∷ (λ d'. or_raise servers w (reformat_processes w d'.recovery.procinfos) d')
          ∷ (λ d'.
              kept_or_recover servers w (bookkeep_processes w d'.subsystems d'.recovery.procinfos)
                d')
          ∷ may_raise w.record_directory_raises
          ∷ (λ d'. if w.check_config_raises then returned (revert_to_before d') else goes_on d')
          ∷ [])
        d
        (may_raise-Ends before "ready" (finds_repeated info.files [])
          next_step (λ d' h'.
              after_resolving-Ends d' (resolve_documents w info 0 d'.recovery.procinfos) h')
          next_step (λ d' h'. or_raise-Ends (reformat_processes w d'.recovery.procinfos) d' h')
          next_step (λ d' h'.
              kept_or_recover-Ends (bookkeep_processes w d'.subsystems d'.recovery.procinfos) d' h')
          next_step may_raise-Ends before "ready" w.record_directory_raises
          next_step (λ d' h'.
              if_both E w.check_config_raises (revert-Settled before "ready" d' h') h')
          next_step all_steps)
        h

  prepare_now-Ends : (d : Daqinterface A) → Open before d → E (prepare_now servers w d)
  unfolding prepare_now
  prepare_now-Ends d h = prepare_from_info-Ends d (w.get_config_info d.subconfigs_for_run) h

  after_archiving-Ends :
      (d : Daqinterface A) (o : List Procinfo × Archived)
      → Open before d
      → E (after_archiving w.add_entry w.searches servers d o)
  unfolding after_archiving
  after_archiving-Ends d (ps, all_taken) h = h
  after_archiving-Ends d (ps, call_raised label process) h =
      recover_and_go_on-Ends before "ready" servers
        "An exception was thrown when attempting to add archive entry" (with_procinfos ps d) h
  after_archiving-Ends d (ps, unsuccessful label process) h = h

  archive_run-Ends :
      (metadata boot : Option String) (d : Daqinterface A)
      → Open before d
      → E (archive_run servers w.add_entry w.searches metadata boot d)
  unfolding archive_run archive_documents
  archive_run-Ends (some metadata) (some boot) d h =
      after_archiving-Ends d
        (archive_all w.add_entry w.searches
          (fhicl_documents d.recovery.procinfos
            ++ contents_document "metadata" metadata ∷ contents_document "boot" boot ∷ [])
          d.recovery.procinfos)
        h
  archive_run-Ends none boot d h = h
  archive_run-Ends (some metadata) none d h = h

  init_processes-Ends : (d : Daqinterface A) → Open before d → E (init_processes servers w d)
  unfolding init_processes
  init_processes-Ends d h =
      if_both E d.recovery.manage_processes
        (run_steps-Ends before "ready"
          (readjust servers w.boardreader_priorities
            ∷ command_or_recover servers init_command
                "An exception was thrown when attempting to send the \"init\" transition"
            ∷ archive_run servers w.add_entry w.searches (w.metadata d.subconfigs_for_run) w.boot
            ∷ [])
          d
          (readjust-Ends before "ready" servers w.boardreader_priorities
            next_step (λ d' h'.
                command_or_recover-Ends before "ready" servers init_command
                  "An exception was thrown when attempting to send the \"init\" transition" d'
                  (λ s. refl) h')
            next_step archive_run-Ends (w.metadata d.subconfigs_for_run) w.boot
            next_step all_steps)
          h)
        h

  init_and_complete-Ends : (d : Daqinterface A) → Open before d → E (init_and_complete servers w d)
  unfolding init_and_complete
  init_and_complete-Ends d h =
      run_steps-Ends before "ready"
        (init_processes servers w ∷ (λ d'. returned (complete_as "configuring" d')) ∷ []) d
        (init_processes-Ends
          next_step (λ d' h'. inl (complete_as-At before "configuring" d' h'))
          next_step all_steps)
        h

  sequentially :
      (d : Daqinterface A)
      → Open before d
      → E (run_steps (prepare_now servers w ∷ init_and_complete servers w ∷ []) d)
  sequentially d h =
      run_steps-Ends before "ready" (prepare_now servers w ∷ init_and_complete servers w ∷ []) d
        (prepare_now-Ends next_step init_and_complete-Ends next_step all_steps) h

  after_thread-Ends :
      (d : Daqinterface A) (o : Option (List Procinfo))
      → Open before d
      → E (after_thread servers w d o)
  unfolding after_thread
  after_thread-Ends d none h = sequentially d h
  after_thread-Ends d (some ps) h =
      run_steps-Ends before "ready"
        (may_raise w.record_directory_raises ∷ init_and_complete servers w ∷ [])
        (with_procinfos ps (record d { config_prepared = true }))
        (may_raise-Ends before "ready" w.record_directory_raises
          next_step init_and_complete-Ends
          next_step all_steps)
        h

  configure_as-Ends :
      (configs : List String) (d : Daqinterface A)
      → Open before d
      → E (configure_as servers w configs d)
  unfolding configure_as
  configure_as-Ends configs d h =
      let d' : Daqinterface A = record d {
        subconfigs_for_run = configs;
        config_prep_thread = none;
      } in
      option_both E d.config_prep_thread (sequentially d' h) (λ read.
        after_thread-Ends d' (do_config_prepare w read d.subsystems d.recovery.procinfos) h)

  pub do_config-Ends :
      (configs_of : Option A → Option (List String)) (d : Daqinterface A)
      → Open before d
      → Ends before "ready" (do_config servers w configs_of d)
  unfolding do_config
  do_config-Ends configs_of d h =
      let d' : Daqinterface A = record d {
        recovery = record (d.recovery) { transition_process_errors = [] };
      } in
      option_both E (configs_of d.recovery.component.run_params) h
        (λ configs. configure_as-Ends configs d' h)
