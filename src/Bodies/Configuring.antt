-- ===== src/Bodies/Configuring.antt =====
-- rc/control/daqinterface.py: `do_config`.
use artdaq_daqinterface.Prelude.{
  ℕ, suc, String, Bool, true, not, ◌&&◌, ◌||◌, Option, none, some, List, [], ◌∷◌, ◌++◌, occurs,
  ◌=ₛ◌, if◌then◌else◌,
}
use artdaq_daqinterface.Procinfo.{Procinfo, is_eventbuilder}
use artdaq_daqinterface.Command.{Reply, init_command}
use artdaq_daqinterface.Requirements.{Searches}
use artdaq_daqinterface.Include.{
  Included, fhicl_used, unparsed, not_found, out_of_fuel, update_fhicl,
}
use artdaq_daqinterface.Bodies.{
  Daqinterface, Progress, goes_on, returned, raised_out, run_steps, may_raise, complete_as, Servers,
  recover_from, recover_and_return, readjust, command_or_recover,
}
use artdaq_daqinterface.Bodies.Reading.{revert_to_before, with_procinfos}
use artdaq_daqinterface.Bodies.Archive.{
  Document, fhicl_documents, contents_document, archive_documents,
}
use artdaq_daqinterface.Bodies.Documents.{
  ConfigInfo, ConfigAnswers, finds_repeated, matching_filenames, last_match, reformat_processes,
  bookkeep_processes, do_config_prepare,
}

-- The loop over the processes: all have their documents, one has none, or an inclusion failed. Where
-- one fails, the documents of the processes before it are not kept here; a later request overwrites
-- them.
pub data Resolving : Type 0 where
  resolved_all : List Procinfo → Resolving
  missing_fhicl : (label : String) → Resolving
  update_failed : (label : String) → Resolving

module _ (w : ConfigAnswers) where
  -- Whether the names of the ROOT files are given a number.
  abbrev pub relabels : Procinfo → Bool
  relabels p =
      not w.disable_unique_rootfile_labels && (is_eventbuilder p || occurs "DataLogger" p.name)

  abbrev pub before_all : Procinfo → Resolving → Resolving
  before_all p (resolved_all ps) = resolved_all (p ∷ ps)
  before_all p (missing_fhicl label) = missing_fhicl label
  before_all p (update_failed label) = update_failed label

  -- A process with its document; `cntr` counts the documents that were relabelled, and `rest` is the
  -- loop for the later processes.
  unfoldable pub with_document : ℕ → Procinfo → String → (ℕ → Resolving) → Resolving
  with_document cntr p text rest =
      let relabelled = w.relabel (suc cntr) text in
      let counted = if relabelled =ₛ text then rest cntr else rest (suc cntr) in
      if relabels p
      then before_all (record p { fhicl_used = relabelled }) counted
      else before_all (record p { fhicl_used = text }) (rest cntr)

  unfoldable pub after_update : ℕ → Procinfo → Included → (ℕ → Resolving) → Resolving
  unfolding with_document
  after_update cntr p (fhicl_used text) rest = with_document cntr p text rest
  after_update cntr p (unparsed line filename) rest = update_failed p.label
  after_update cntr p (not_found name) rest = update_failed p.label
  after_update cntr p out_of_fuel rest = update_failed p.label

  unfoldable pub resolve_documents : ConfigInfo → ℕ → List Procinfo → Resolving
  unfolding last_match matching_filenames update_fhicl
  resolve_documents info cntr [] = resolved_all []
  resolve_documents info cntr (p ∷ ps) = elim (last_match (matching_filenames p) info.files) [
    | none ↦ missing_fhicl p.label
    | some f ↦
        after_update cntr p
          (update_fhicl w.documents info.fhicl_file_path w.recursion_limit (some f.path))
          (λ n. resolve_documents info n ps)
  ]

-- Both files are opened while the run record may still be written.
unfoldable pub archive_run :
    {A : Type 0}
    → Servers
    → (Procinfo → Document → Reply)
    → Searches
    → Option String
    → Option String
    → Daqinterface A
    → Progress A
unfolding fhicl_documents contents_document archive_documents
archive_run servers add_entry re (some metadata) (some boot) d =
    archive_documents add_entry re servers
      (fhicl_documents d.recovery.procinfos
        ++ contents_document "metadata" metadata ∷ contents_document "boot" boot ∷ [])
      d
archive_run servers add_entry re _ _ d = raised_out d

module _ {A : Type 0} (servers : Servers) (w : ConfigAnswers) where
  abbrev pub or_raise : Option (List Procinfo) → Daqinterface A → Progress A
  or_raise none d = raised_out d
  or_raise (some ps) d = goes_on (with_procinfos ps d)

  unfoldable pub kept_or_recover : Option (List Procinfo) → Daqinterface A → Progress A
  unfolding recover_from
  kept_or_recover none d =
      recover_and_return servers
        "An exception was thrown when performing bookkeeping on the process FHiCL documents" d
  kept_or_recover (some ps) d = goes_on (with_procinfos ps d)

  unfoldable pub after_resolving : Daqinterface A → Resolving → Progress A
  unfolding revert_to_before recover_from
  after_resolving d (resolved_all ps) = goes_on (with_procinfos ps d)
  after_resolving d (missing_fhicl label) = returned (revert_to_before d)
  after_resolving d (update_failed label) =
      recover_and_return servers "An exception was thrown when creating the process FHiCL documents"
        d

  -- The documents of the configurations, one after the other.
  unfoldable pub prepare_from_info : Daqinterface A → Option ConfigInfo → Progress A
  unfolding run_steps revert_to_before recover_from finds_repeated resolve_documents
      reformat_processes bookkeep_processes
  prepare_from_info d none = returned (revert_to_before d)
  prepare_from_info d (some info) =
      run_steps
        (may_raise (finds_repeated info.files [])
          ∷ (λ d'. after_resolving d' (resolve_documents w info 0 d'.recovery.procinfos))
          ∷ (λ d'. or_raise (reformat_processes w d'.recovery.procinfos) d')
          ∷ (λ d'. kept_or_recover (bookkeep_processes w d'.subsystems d'.recovery.procinfos) d')
          ∷ may_raise w.record_directory_raises
          ∷ (λ d'. if w.check_config_raises then returned (revert_to_before d') else goes_on d')
          ∷ [])
        d

  unfoldable pub prepare_now : Daqinterface A → Progress A
  unfolding prepare_from_info
  prepare_now d = prepare_from_info d (w.get_config_info d.subconfigs_for_run)

  -- The initialisation of the processes that are managed; the run record, with the metadata, is written
  -- at its start.
  unfoldable pub init_processes : Daqinterface A → Progress A
  unfolding run_steps readjust command_or_recover archive_run
  init_processes d =
      let initialized =
        run_steps
          (readjust servers w.boardreader_priorities
            ∷ command_or_recover servers init_command
                "An exception was thrown when attempting to send the \"init\" transition"
            ∷ archive_run servers w.add_entry w.searches (w.metadata d.subconfigs_for_run) w.boot
            ∷ [])
          d in
      if d.recovery.manage_processes then initialized else goes_on d

  -- What follows the preparation of the documents.
  unfoldable pub init_and_complete : Daqinterface A → Progress A
  unfolding run_steps init_processes complete_as
  init_and_complete d =
      run_steps (init_processes ∷ (λ d'. returned (complete_as "configuring" d')) ∷ []) d

  -- Once the thread has ended: its documents are taken where it prepared them, whatever the
  -- configurations of the request are.
  unfoldable pub after_thread : Daqinterface A → Option (List Procinfo) → Progress A
  unfolding run_steps prepare_now init_and_complete
  after_thread d none = run_steps (prepare_now ∷ init_and_complete ∷ []) d
  after_thread d (some ps) =
      run_steps (may_raise w.record_directory_raises ∷ init_and_complete ∷ [])
        (with_procinfos ps (record d { config_prepared = true }))

  unfoldable pub configure_as : List String → Daqinterface A → Progress A
  unfolding run_steps prepare_now init_and_complete after_thread do_config_prepare
  configure_as configs d =
      let d' : Daqinterface A = record d {
        subconfigs_for_run = configs;
        config_prep_thread = none;
      } in
      elim d.config_prep_thread [
        | none ↦ run_steps (prepare_now ∷ init_and_complete ∷ []) d'
        | some read ↦ after_thread d' (do_config_prepare w read d.subsystems d.recovery.procinfos)
      ]

  -- `configs_of` are the configurations that the arguments of the request name, sorted.
  unfoldable pub do_config : (Option A → Option (List String)) → Daqinterface A → Progress A
  unfolding configure_as
  do_config configs_of d =
      let d' : Daqinterface A = record d {
        recovery = record (d.recovery) { transition_process_errors = [] };
      } in
      elim (configs_of d.recovery.component.run_params) [
        | none ↦ raised_out d'
        | some configs ↦ configure_as configs d'
      ]
