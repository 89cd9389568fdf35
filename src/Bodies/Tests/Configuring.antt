-- ===== src/Bodies/Tests/Configuring.antt =====
-- Configurations of a small system, for rc/control/daqinterface.py.
use artdaq_daqinterface.Prelude.{
  String, ◌≡◌, refl, true, false, Option, none, some, List, [], ◌∷◌, isin, if◌then◌else◌,
}
use artdaq_daqinterface.Command.{raised}
use artdaq_daqinterface.Bodies.Reading.{with_procinfos}
use artdaq_daqinterface.Bodies.Documents.{
  FoundFile, ConfigInfo, ConfigAnswers, fhicls, given_documents, do_config_prepare, other_filename,
  finds_repeated,
}
use artdaq_daqinterface.Bodies.Configuring.{configure_as, init_and_complete}
use artdaq_daqinterface.Bodies.Prepared.{rename_end, prepared_ignores_request}
use artdaq_daqinterface.Bodies.Tests.{process, servers, daq, searches, outcome}

-- The documents of two configurations.
abbrev files_of : List String → Option ConfigInfo
files_of configs =
    let text = if isin "demo" configs then "a: 1" else "a: 2" in
    some (record {
      files =
          (record { filename = "component01.fcl"; path = "/tmp/component01.fcl"; contents = text })
          ∷ (record { filename = "EB1.fcl"; path = "/tmp/EB1.fcl"; contents = text })
          ∷ [];
      fhicl_file_path = "/tmp" ∷ [];
    })

abbrev config_answers : ConfigAnswers
config_answers = record {
  get_config_info = files_of;
  documents = record {
    is_comment = λ line. false;
    included_file = λ line. none;
    exists = λ path. true;
    lines_of = λ path. "a: 3" ∷ [];
  };
  recursion_limit = 10;
  disable_unique_rootfile_labels = false;
  relabel = λ n text. text;
  reformat = λ texts. some texts;
  bookkeeping = λ ps g. some (fhicls ps);
  record_directory_raises = false;
  check_config_raises = false;
  boardreader_priorities = none;
  metadata =
      λ configs. some (if isin "demo" configs then "Config name: demo" else "Config name: other");
  boot = some "boot";
  add_entry = λ p document. raised;
  searches = searches;
}

prepared :
    do_config_prepare config_answers
      ("demo" ∷ [])
      (daq "configuring" (some ("demo" ∷ []))).subsystems
      (daq "configuring" (some ("demo" ∷ []))).recovery.procinfos
    ≡ some (
        (record (process "BoardReader" "component01") { fhicl_used = "a: 1" })
        ∷ (record (process "EventBuilder" "EB1") { fhicl_used = "a: 1" })
        ∷ [])
unfolding do_config_prepare given_documents
prepared = refl

prepared_ignores_request_example :
    configure_as servers
      (record config_answers { metadata = λ names. some "Config name: demo" })
      ("other" ∷ [])
      (daq "configuring" (some ("demo" ∷ [])))
    ≡ rename_end
        ("other" ∷ [])
        (configure_as servers config_answers ("demo" ∷ []) (daq "configuring" (some ("demo" ∷ []))))
unfolding isin
prepared_ignores_request_example =
    prepared_ignores_request servers config_answers (daq "configuring" (some ("demo" ∷ [])))
      ("demo" ∷ [])
      ((record (process "BoardReader" "component01") { fhicl_used = "a: 1" })
        ∷ (record (process "EventBuilder" "EB1") { fhicl_used = "a: 1" })
        ∷ [])
      ("demo" ∷ []) ("other" ∷ []) refl prepared

other_names :
    (other_filename "component01.fcl" ≡ "component01_hw_cfg.fcl")
    × (other_filename "component01_hw_cfg.fcl" ≡ "component01.fcl")
unfolding other_filename
other_names = (refl, refl)

abbrev output_files : List FoundFile
output_files =
    (record { filename = "EB1.fcl"; path = "/tmp/EB1.fcl"; contents = "" })
    ∷ (record { filename = "EB1_hw_cfg.fcl"; path = "/tmp/EB1_hw_cfg.fcl"; contents = "" })
    ∷ []

repeated : finds_repeated output_files [] ≡ true
unfolding finds_repeated
repeated = refl

-- The processes write ROOT files, and the call to archive a document raises an exception: a recovery
-- is run, and the configuration completes all the same, without processes.
ready_after_recovery :
    outcome (
      init_and_complete servers config_answers (
        with_procinfos
          ((record (process "EventBuilder" "EB1") { fhicl_used = "RootOutput a.root" }) ∷ [])
          (daq "configuring" none)))
    ≡ some ("ready", [])
unfolding init_and_complete
ready_after_recovery = refl
