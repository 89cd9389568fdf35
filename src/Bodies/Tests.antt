-- ===== src/Bodies/Tests.antt =====
-- Transitions of a small system, for rc/control/daqinterface.py.
mod Configuring
use artdaq_daqinterface.Prelude.{
  ℕ, String, ◌=ₛ◌, ◌≡◌, refl, true, false, Option, none, some, List, [], ◌∷◌, isin, occurs,
  append_text, ◌==◌, if◌then◌else◌,
}
use artdaq_daqinterface.Procinfo.{Procinfo}
use artdaq_daqinterface.Component.{Component}
use artdaq_daqinterface.Command.{replied, raised}
use artdaq_daqinterface.BootFile.{LinePatterns}
use artdaq_daqinterface.Requirements.{Searches}
use artdaq_daqinterface.Recover.{found, Recovery, no_flags}
use artdaq_daqinterface.Bodies.{Daqinterface, Progress, goes_on, returned, Servers}
use artdaq_daqinterface.Bodies.Running.{Archiving, StartAnswers, do_start_running}
use artdaq_daqinterface.Bodies.Reading.{BootAnswers, no_viewer, with_procinfos}
use artdaq_daqinterface.Bodies.Launching.{wait_for_processes}
use artdaq_daqinterface.Bodies.Documents.{
  FoundFile, ConfigInfo, ConfigAnswers, fhicls, do_config_prepare, other_filename, finds_repeated,
}
use artdaq_daqinterface.Bodies.Configuring.{configure_as, init_and_complete}
use artdaq_daqinterface.Bodies.Waiting.{Waited, wait_for_processes_decides}
use artdaq_daqinterface.Bodies.Records.{RunsOnly, IsRecorded, running_needs_record}
use artdaq_daqinterface.Bodies.Prepared.{rename_end, prepared_ignores_request}

abbrev pub process : String → String → Procinfo
process name label = record {
  name = name;
  rank = 0;
  host = "localhost";
  port = "5206";
  port_number = 5206;
  label = label;
  subsystem = "1";
  fhicl_used = "";
  priority = 999;
  lastreturned = "Success";
  state = "Ready";
}

abbrev pub servers : Servers
servers = record {
  find_pid = λ p. found;
  ask = λ p q. replied "Success";
  kill_procs = λ ps. ([], false);
  call = λ p c. replied "Success";
  reads = λ p n. "Success";
  search = occurs;
  tmp_run_record = "/tmp/run_record";
}

-- The state, the processes and the thread of a boot.
abbrev pub daq : String → Option (List String) → Daqinterface ℕ
daq state thread = record {
  recovery = record {
    component = record { name = "daqint"; state = state; run_params = some 7; flags = no_flags };
    in_recovery = false;
    disable_recovery = false;
    called_launch_procs = true;
    manage_processes = true;
    procinfos = process "BoardReader" "component01" ∷ process "EventBuilder" "EB1" ∷ [];
    transition_process_errors = [];
    last_critical_error = "";
  };
  subsystems = ("1", record { sources = []; destination = none; fragment_mode = true }) ∷ [];
  exception = false;
  daq_comp_list = ("component01", "localhost" ∷ "5206" ∷ []) ∷ [];
  boot_completed = true;
  run_number = none;
  subconfigs_for_run = [];
  config_prep_thread = thread;
  config_prepared = false;
}

abbrev run_number_of : Option ℕ → Option String
run_number_of none = none
run_number_of (some n) = some "7"

abbrev answers : Archiving → StartAnswers
answers archiving = record {
  integrity_check_raises = false;
  run_records = "5" ∷ "6" ∷ [];
  tmp_run_record_exists = true;
  copytree_raises = false;
  cleanup_raises = false;
  put_config_info_raises = false;
  archiving = archiving;
  trace_script_raises = false;
  boardreader_priorities = none;
  start_datataking_raises = false;
  softlink_raises = false;
}

abbrev no_archiving : Archiving
no_archiving = record {
  external_run_control = false;
  info_exists = false;
  copy_raises = false;
  copy_exists = false;
}

-- The file to archive is there, and its copy is not there afterwards.
abbrev lost_copy : Archiving
lost_copy = record {
  external_run_control = true;
  info_exists = true;
  copy_raises = false;
  copy_exists = false;
}

abbrev pub outcome : Progress ℕ → Option (String × List Procinfo)
outcome (returned d) = some (d.recovery.component.state, d.recovery.procinfos)
outcome p = none

running_needs_record_example :
    RunsOnly
      ((run_number : String) × (run_number_of (some 7) ≡ some run_number)
        × IsRecorded (answers no_archiving) run_number)
      (do_start_running servers run_number_of (answers no_archiving) (daq "starting" none))
running_needs_record_example =
    running_needs_record servers run_number_of (answers no_archiving) (daq "starting" none)

-- The copy is lost, a recovery is run, and the run is started all the same, without processes.
runs_after_recovery :
    outcome (do_start_running servers run_number_of (answers lost_copy) (daq "starting" none))
    ≡ some ("running", [])
unfolding do_start_running
runs_after_recovery = refl

abbrev patterns : LinePatterns
patterns = record {
  is_comment = λ line. line =ₛ "#";
  is_blank = λ line. line =ₛ "";
  expand = λ line. some line;
  find_process_manager_variable = λ line. false;
  daq_setup_script = λ line. none;
  request_address = λ line. none;
  debug_level = λ line. none;
  manages = λ line. false;
  manages_not = λ line. false;
  disables_recovery = λ line. false;
  enables_recovery = λ line. false;
  subsystem_entry = λ line. none;
  member_entry = λ line. none;
  overwrite = λ line. none;
  says_false = λ text. false;
  int = λ text. none;
  split = λ text. text ∷ [];
  dirname = λ text. text;
}

abbrev pub searches : Searches
searches = record {
  search = occurs;
  is_ignored = λ line. false;
  rule = λ line. none;
  names_root_file = λ fhicl. occurs ".root" fhicl;
}

-- The processes are found from the second check on.
abbrev boot_answers : BootAnswers
boot_answers = record {
  boot_file_raises = false;
  boot_lines = [];
  patterns = patterns;
  ports = record {
    base_port = 5000;
    ports_per_partition = 1000;
    partition_number = 2;
    num_components = 1;
  };
  texts = record {
    text_of_number = λ n. "5206";
    number_of_text = λ text. 5206;
    exists = λ path. true;
  };
  msgviewer = no_viewer;
  preparation_raises = false;
  launch_procs_raises = false;
  max_num_launch_procs_checks = 3;
  search_raises = λ n. false;
  labels_on_host = λ n ps host. if n == 1 then "component01" ∷ [] else "component01" ∷ "EB1" ∷ [];
  label_suffix = "";
  searches = searches;
  server_raises = λ p. false;
  status_of = λ p. some "Stopped";
  logfiles_raise = false;
  external_run_control = false;
  ranks_file = none;
}

wait_for_processes_decides_example :
    Waited servers boot_answers
      (daq "booting" none)
      0
      (wait_for_processes servers boot_answers 4 0 (daq "booting" none))
wait_for_processes_decides_example =
    wait_for_processes_decides servers boot_answers (daq "booting" none)

goes_on_at_second :
    wait_for_processes servers boot_answers 4 0 (daq "booting" none) ≡ goes_on (daq "booting" none)
unfolding wait_for_processes append_text
goes_on_at_second = refl
