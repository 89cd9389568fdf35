-- ===== src/BootFile/Tests.antt =====
-- The boot file of a small system, for rc/control/config_functions_local.py.
use artdaq_daqinterface.Prelude.{
  String, ◌=ₛ◌, ◌≡◌, refl, true, false, Option, none, some, List, [], ◌∷◌, ◌++◌, Dict, lookup,
  insert, if◌then◌else◌,
}
use artdaq_daqinterface.BootFile.{
  failed, done, inconsistent, LinePatterns, Ports, given, formatted, Member, BootReading,
}
use artdaq_daqinterface.BootFile.Reading.{get_boot_info}
use artdaq_daqinterface.BootFile.Boardreaders.{add_boardreaders}
use artdaq_daqinterface.BootFile.Ranks.{upto, ranks, AllByFormula}
use artdaq_daqinterface.BootFile.Numbers.{Readers, boot_processes_numbered}

-- The entries of the lines below, and nothing else.
abbrev entry_of : String → Option (String × (String × String))
entry_of line = lookup line (
    ("EventBuilder host", ("EventBuilder", ("host", "localhost")))
    ∷ ("EventBuilder label", ("EventBuilder", ("label", "EB1")))
    ∷ ("DataLogger host", ("DataLogger", ("host", "localhost")))
    ∷ ("DataLogger label", ("DataLogger", ("label", "DL1")))
    ∷ ("DataLogger port", ("DataLogger", ("port", "7000")))
    ∷ [])

abbrev patterns : LinePatterns
patterns = record {
  is_comment = λ line. line =ₛ "#";
  is_blank = λ line. line =ₛ "";
  expand = λ line. some line;
  find_process_manager_variable = λ line. false;
  daq_setup_script = λ line. none;
  request_address = λ line. none;
  debug_level = λ line. if line =ₛ "debug level: 2" then some "2" else none;
  manages = λ line. false;
  manages_not = λ line. false;
  disables_recovery = λ line. false;
  enables_recovery = λ line. false;
  subsystem_entry = λ line. none;
  member_entry = entry_of;
  overwrite = λ line. none;
  says_false = λ text. false;
  int = λ text. some 2;
  split = λ text. text ∷ [];
  dirname = λ text. text;
}

abbrev ports : Ports
ports = record {
  base_port = 5000;
  ports_per_partition = 1000;
  partition_number = 2;
  num_components = 1;
}

abbrev nothing_read : BootReading
nothing_read = record {
  member_dict = [];
  subsystem_dict = [];
  num_expected_processes = 0;
  num_actual_processes = 0;
  procinfos = [];
  subsystems = [];
  bootfile_fhicl_overwrites = [];
  daq_setup_script = none;
  daq_dir = none;
  request_address = none;
  debug_level = none;
  manage_processes = none;
  disable_recovery = false;
}

abbrev file : List String
file =
    "debug level: 2" ∷ "EventBuilder host" ∷ "EventBuilder label" ∷ "" ∷ "DataLogger host"
    ∷ "DataLogger label" ∷ "DataLogger port" ∷ []

-- A comment or a setting in the last line: the process before it is not taken in.
ends_in_comment :
    get_boot_info patterns ports
      ("EventBuilder host" ∷ "EventBuilder label" ∷ "#" ∷ [])
      nothing_read
    ≡ failed (inconsistent 1 0)
unfolding get_boot_info lookup insert
ends_in_comment = refl

abbrev builder : Member
builder = record {
  name = "EventBuilder";
  rank = 1;
  host = "localhost";
  port = formatted 7101;
  label = "EB1";
  subsystem = "1";
  allowed_processors = none;
  target = "not set";
  prepend = "";
}

abbrev logger : Member
logger = record {
  name = "DataLogger";
  rank = 2;
  host = "localhost";
  port = given "7000";
  label = "DL1";
  subsystem = "1";
  allowed_processors = none;
  target = "not set";
  prepend = "";
}

abbrev reader : Member
reader = record {
  name = "BoardReader";
  rank = 0;
  host = "localhost";
  port = formatted 7100;
  label = "component01";
  subsystem = "1";
  allowed_processors = none;
  target = "EventBuilder";
  prepend = "";
}

-- What is left when the last process is taken in.
abbrev file_read : BootReading
file_read = record nothing_read {
  member_dict =
      ("name", none)
      ∷ ("label", none)
      ∷ ("host", none)
      ∷ ("port", some "not set")
      ∷ ("fhicl", none)
      ∷ ("subsystem", some "not set")
      ∷ ("allowed_processors", some "not set")
      ∷ ("target", some "not set")
      ∷ ("prepend", some "not set")
      ∷ [];
  subsystem_dict =
      ("id", none)
      ∷ ("source", some "not set")
      ∷ ("destination", some "not set")
      ∷ ("fragmentMode", some "not set")
      ∷ [];
  num_expected_processes = 2;
  num_actual_processes = 2;
  procinfos = builder ∷ logger ∷ [];
  subsystems = ("1", record { sources = []; destination = none; fragment_mode = true }) ∷ [];
  debug_level = some 2;
}

reads_file : get_boot_info patterns ports file nothing_read ≡ done file_read
unfolding get_boot_info lookup insert
reads_file = refl

abbrev components : Dict (List String)
components = ("component01", "localhost" ∷ "-1" ∷ "1" ∷ []) ∷ []

adds_reader :
    add_boardreaders ports 0 components (builder ∷ logger ∷ [])
    ≡ done (builder ∷ logger ∷ reader ∷ [])
unfolding add_boardreaders
adds_reader = refl

boot_processes_numbered_example :
    (ranks (builder ∷ logger ∷ reader ∷ []) ≡ upto 1 2 ++ upto 0 1)
    × AllByFormula "not set" ports (builder ∷ logger ∷ [])
    × Readers ports (builder ∷ logger ∷ []) (builder ∷ logger ∷ reader ∷ [])
    × (file_read.num_expected_processes ≡ 2)
boot_processes_numbered_example =
    boot_processes_numbered patterns ports file nothing_read file_read components
      (builder ∷ logger ∷ reader ∷ []) refl refl reads_file adds_reader
