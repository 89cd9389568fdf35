-- ===== src/Bodies/Prepared.antt =====
-- rc/control/daqinterface.py, `do_config`: the documents that the thread of a boot prepared.
use artdaq_daqinterface.Prelude.{
  String, ◌≡◌, refl, ap, ◌∙◌, Bool, true, false, Option, none, some, List, [], ◌∷◌, ◌++◌,
  if◌then◌else◌,
}
use artdaq_daqinterface.Procinfo.{Procinfo}
use artdaq_daqinterface.Command.{
  Command, init_command, CommandOutcome, never_ends, key_error, exception_thrown, not_achieved,
  completed, Interface, do_command,
}
use artdaq_daqinterface.Processes.{readjust_process_priorities}
use artdaq_daqinterface.Bodies.{
  Daqinterface, Progress, goes_on, returned, raised_out, endless, ◌then_step◌, run_steps, interface,
  complete_as, Servers, recover_from, after_recovery, recover_and_return, with_component, may_raise,
  readjust, after_command, command_or_recover,
}
use artdaq_daqinterface.Recover.{Recovery, alert_and_recover}
use artdaq_daqinterface.Bodies.Reading.{with_procinfos}
use artdaq_daqinterface.Bodies.Archive.{
  Archived, all_taken, call_raised, unsuccessful, archive_all, after_archiving, archive_documents,
  fhicl_documents, contents_document,
}
use artdaq_daqinterface.Bodies.Documents.{ConfigAnswers, do_config_prepare}
use artdaq_daqinterface.Bodies.Configuring.{
  archive_run, init_processes, init_and_complete, after_thread, configure_as,
}

-- The same with the text of the metadata for these configurations.
abbrev same_metadata : ConfigAnswers → List String → ConfigAnswers
same_metadata w configs = record w { metadata = λ names. w.metadata configs }

module _ {A : Type 0} where
  -- The same with another name of the configuration.
  abbrev pub rename : List String → Daqinterface A → Daqinterface A
  rename configs d = record d { subconfigs_for_run = configs }

  abbrev pub rename_end : List String → Progress A → Progress A
  rename_end configs (goes_on d) = goes_on (rename configs d)
  rename_end configs (returned d) = returned (rename configs d)
  rename_end configs (raised_out d) = raised_out (rename configs d)
  rename_end configs (endless loop) = endless loop

  -- A statement that the name of the configuration makes no difference to.
  abbrev IsBlind : List String → (Daqinterface A → Progress A) → Type 0
  IsBlind configs step =
      (d : Daqinterface A) → step (rename configs d) ≡ rename_end configs (step d)

  infixr 4 ◌next_blind◌
  data AllBlind (configs : List String) : List (Daqinterface A → Progress A) → Type 0 where
    all_blind : AllBlind configs []
    ◌next_blind◌ :
        {step : Daqinterface A → Progress A} {steps : List (Daqinterface A → Progress A)}
        → IsBlind configs step
        → AllBlind configs steps
        → AllBlind configs (step ∷ steps)

  then_step-IsBlind :
      (configs : List String) (p : Progress A) (next : Daqinterface A → Progress A)
      → IsBlind configs next
      → (rename_end configs p then_step next) ≡ rename_end configs (p then_step next)
  then_step-IsBlind configs (goes_on d) next blind = blind d
  then_step-IsBlind configs (returned d) next blind = refl
  then_step-IsBlind configs (raised_out d) next blind = refl
  then_step-IsBlind configs (endless loop) next blind = refl

  run_steps-IsBlind :
      (configs : List String) (steps : List (Daqinterface A → Progress A))
      → AllBlind configs steps
      → IsBlind configs (run_steps steps)
  unfolding run_steps
  run_steps-IsBlind configs [] all_blind d = refl
  run_steps-IsBlind configs (step ∷ steps) (here next_blind all) d =
      ap (λ p. p then_step λ d'. run_steps steps d') (here d)
      ∙ then_step-IsBlind configs (step d) (λ d'. run_steps steps d')
          (run_steps-IsBlind configs steps all)

  module _ (servers : Servers) (configs : List String) where
    readjust-IsBlind :
        (priorities : Option (List String)) → IsBlind configs (readjust servers priorities)
    unfolding readjust
    readjust-IsBlind priorities d =
        option_case (readjust_process_priorities servers.search priorities d.recovery.procinfos).1
      where
        after : Option String → Daqinterface A → Progress A
        after fault x = elim fault [ none ↦ goes_on x | some label ↦ raised_out x ]

        d' : Daqinterface A
        d' =
            with_procinfos
              (readjust_process_priorities servers.search priorities d.recovery.procinfos).0 d

        option_case :
            (fault : Option String)
            → after fault (rename configs d') ≡ rename_end configs (after fault d')
        option_case none = refl
        option_case (some label) = refl

    recovering-IsBlind :
        (next : Daqinterface A → Progress A)
        → IsBlind configs next
        → (extrainfo : String)
        → IsBlind configs (λ d. after_recovery servers next (recover_from servers extrainfo d))
    unfolding recover_from
    recovering-IsBlind next blind extrainfo d =
        ends
          (alert_and_recover servers.find_pid servers.ask servers.kill_procs extrainfo d.recovery)
      where
        ends :
            (x : Recovery A × Bool)
            → after_recovery servers next (record (rename configs d) { recovery = x.0 }, x.1)
              ≡ rename_end configs (after_recovery servers next (record d { recovery = x.0 }, x.1))
        ends (r, false) = blind (record d { recovery = r })
        ends (r, true) = refl

    recover_and_return-IsBlind :
        (extrainfo : String) → IsBlind configs (recover_and_return servers extrainfo)
    recover_and_return-IsBlind extrainfo d =
        recovering-IsBlind (λ d'. returned d') (λ d'. refl) extrainfo d

    after_command-IsBlind :
        (extrainfo : String) (o : Interface A × CommandOutcome)
        → IsBlind configs (λ d. after_command servers extrainfo d o)
    unfolding recover_from
    after_command-IsBlind extrainfo (i, completed) d = refl
    after_command-IsBlind extrainfo (i, never_ends) d = refl
    after_command-IsBlind extrainfo (i, key_error) d =
        recover_and_return-IsBlind extrainfo (with_component d i)
    after_command-IsBlind extrainfo (i, exception_thrown) d =
        recover_and_return-IsBlind extrainfo (with_component d i)
    after_command-IsBlind extrainfo (i, not_achieved) d =
        recover_and_return-IsBlind extrainfo (with_component d i)

    command_or_recover-IsBlind :
        (c : Command) (extrainfo : String)
        → IsBlind configs (command_or_recover servers c extrainfo)
    unfolding command_or_recover
    command_or_recover-IsBlind c extrainfo d =
        after_command-IsBlind extrainfo
          (do_command servers.call servers.reads servers.tmp_run_record c (interface d)) d

    module _ (w : ConfigAnswers) where
      after_archiving-IsBlind :
          (o : List Procinfo × Archived)
          → IsBlind configs (λ d. after_archiving w.add_entry w.searches servers d o)
      unfolding after_archiving recover_from
      after_archiving-IsBlind (ps, all_taken) d = refl
      after_archiving-IsBlind (ps, call_raised label process) d =
          recovering-IsBlind (λ d'. goes_on d') (λ d'. refl)
            "An exception was thrown when attempting to add archive entry" (with_procinfos ps d)
      after_archiving-IsBlind (ps, unsuccessful label process) d = refl

      archive_run-IsBlind :
          (metadata boot : Option String)
          → IsBlind configs (archive_run servers w.add_entry w.searches metadata boot)
      unfolding archive_run archive_documents
      archive_run-IsBlind (some metadata) (some boot) d =
          after_archiving-IsBlind
            (archive_all w.add_entry w.searches
              (fhicl_documents d.recovery.procinfos
                ++ contents_document "metadata" metadata ∷ contents_document "boot" boot ∷ [])
              d.recovery.procinfos)
            d
      archive_run-IsBlind none boot d = refl
      archive_run-IsBlind (some metadata) none d = refl

      init_processes-same :
          (d : Daqinterface A)
          → init_processes servers (same_metadata w d.subconfigs_for_run) (rename configs d)
            ≡ rename_end configs (init_processes servers w d)
      unfolding init_processes
      init_processes-same d = branch d.recovery.manage_processes
        where
          statements : List (Daqinterface A → Progress A)
          statements =
              readjust servers w.boardreader_priorities
              ∷ command_or_recover servers init_command
                  "An exception was thrown when attempting to send the \"init\" transition"
              ∷ archive_run servers w.add_entry w.searches (w.metadata d.subconfigs_for_run) w.boot
              ∷ []

          branch :
              (b : Bool)
              → (if b then run_steps statements (rename configs d) else goes_on (rename configs d))
                ≡ rename_end configs (if b then run_steps statements d else goes_on d)
          branch true =
              run_steps-IsBlind configs statements
                (readjust-IsBlind w.boardreader_priorities
                  next_blind command_or_recover-IsBlind init_command
                      "An exception was thrown when attempting to send the \"init\" transition"
                  next_blind archive_run-IsBlind (w.metadata d.subconfigs_for_run) w.boot
                  next_blind all_blind)
                d
          branch false = refl

      init_and_complete-same :
          (d : Daqinterface A)
          → init_and_complete servers (same_metadata w d.subconfigs_for_run) (rename configs d)
            ≡ rename_end configs (init_and_complete servers w d)
      unfolding init_and_complete run_steps complete_as
      init_and_complete-same d =
          ap (λ p. p then_step λ d'. returned (complete_as "configuring" d'))
            (init_processes-same d)
          ∙ then_step-IsBlind configs (init_processes servers w d)
              (λ d'. returned (complete_as "configuring" d')) (λ d'. refl)

      recorded-same :
          (b : Bool) (d : Daqinterface A)
          → run_steps
              (may_raise b ∷ init_and_complete servers (same_metadata w d.subconfigs_for_run) ∷ [])
              (rename configs d)
            ≡ rename_end configs (run_steps (may_raise b ∷ init_and_complete servers w ∷ []) d)
      unfolding run_steps
      recorded-same true d = refl
      recorded-same false d =
          ap (λ p. p then_step λ d'. goes_on d') (init_and_complete-same d)
          ∙ then_step-IsBlind configs (init_and_complete servers w d) (λ d'. goes_on d')
              (λ d'. refl)

  -- Where the thread that a boot started has prepared the documents of the configurations it read, the
  -- requests for any two configurations differ in nothing but the name of the configuration that is
  -- kept and the text of the metadata file: a request for the second one, with the metadata of the
  -- first, ends as the request for the first one does, with the same documents in the same processes.
  pub prepared_ignores_request :
      (servers : Servers) (w : ConfigAnswers) (d : Daqinterface A) (read : List String)
      (prepared : List Procinfo) (configs configs' : List String)
      → d.config_prep_thread ≡ some read
      → do_config_prepare w read d.subsystems d.recovery.procinfos ≡ some prepared
      → configure_as servers (record w { metadata = λ names. w.metadata configs }) configs' d
        ≡ rename_end configs' (configure_as servers w configs d)
  unfolding configure_as after_thread do_config_prepare
  prepared_ignores_request servers w d read prepared configs configs' thread done =
      rw (configure_as, thread)
        (rw done (
          recorded-same servers configs' w w.record_directory_raises (
            with_procinfos prepared (record d {
              subconfigs_for_run = configs;
              config_prep_thread = none;
              config_prepared = true;
            }))))
