-- ===== src/Bodies/Processes.antt =====
-- rc/control/daqinterface.py, `do_boot_impl`: the processes of a boot, from the boot file and the
-- requested components, in their order.
use artdaq_daqinterface.Prelude.{
  ℕ, String, Bool, true, false, Option, none, some, List, [], ◌∷◌, map, Dict, if◌then◌else◌,
}
use artdaq_daqinterface.Procinfo.{Procinfo}
use artdaq_daqinterface.Processes.{is_upstream}
use artdaq_daqinterface.Boot.{check_boot_info}
use artdaq_daqinterface.BootFile.{
  failed, done, LinePatterns, Ports, Port, given, formatted, Member, BootReading,
  initial_member_dict, initial_subsystem_dict,
}
use artdaq_daqinterface.BootFile.Reading.{get_boot_info}
use artdaq_daqinterface.BootFile.Boardreaders.{add_boardreaders}

-- Python's `str` and `int`, and `os.path.exists`.
pub record Texts : Type 0 where
  pub text_of_number : ℕ → String
  pub number_of_text : String → ℕ
  pub exists : String → Bool

module _ (t : Texts) where
  abbrev pub port_text : Port → String
  port_text (given s) = s
  port_text (formatted n) = t.text_of_number n

  -- `Procinfo.__init__`
  unfoldable pub make_procinfo : Member → Procinfo
  make_procinfo m = record {
    name = m.name;
    rank = m.rank;
    host = m.host;
    port = port_text m.port;
    port_number = t.number_of_text (port_text m.port);
    label = m.label;
    subsystem = m.subsystem;
    fhicl_used = "";
    priority = 999;
    lastreturned = "DAQInterface: ARTDAQ PROCESS NOT YET CALLED";
    state = "nonexistent";
  }

  -- What `get_boot_info` starts with, after `reset_variables`.
  abbrev pub reset_reading : BootReading
  reset_reading = record {
    member_dict = initial_member_dict;
    subsystem_dict = initial_subsystem_dict;
    num_expected_processes = 0;
    num_actual_processes = 0;
    procinfos = [];
    subsystems = [];
    bootfile_fhicl_overwrites = [];
    daq_setup_script = none;
    daq_dir = none;
    request_address = none;
    debug_level = some 10000;
    manage_processes = some true;
    disable_recovery = false;
  }

  unfoldable pub checked_reading : BootReading → Option BootReading
  unfolding make_procinfo check_boot_info
  checked_reading r =
      elim (check_boot_info t.exists (record {
        daq_setup_script = r.daq_setup_script;
        debug_level = r.debug_level;
        procinfos = map make_procinfo r.procinfos;
        subsystems = r.subsystems;
      })) [ none ↦ some r | some fault ↦ none ]

  -- `get_boot_info` and `check_boot_info`; none is an exception.
  unfoldable pub read_boot_file : LinePatterns → Ports → List String → Option BootReading
  unfolding checked_reading get_boot_info
  read_boot_file re e lines = elim (get_boot_info re e lines reset_reading) [
    | failed fault ↦ none
    | done r ↦ checked_reading r
  ]

-- Where `p` comes to stand in the sorted list, before those that it does not follow.
unfoldable pub insert_process : Procinfo → List Procinfo → Option (List Procinfo)
unfolding is_upstream
insert_process p [] = some (p ∷ [])
insert_process p (q ∷ qs) =
    let later = insert_process p qs in
    elim (is_upstream q p) [
      | none ↦ none
      | some follows ↦
          if follows
          then elim later [ none ↦ none | some rest ↦ some (q ∷ rest) ]
          else some (p ∷ q ∷ qs)
    ]

-- `self.procinfos.sort()`; none is the ValueError of a comparison.
unfoldable pub sort_processes : List Procinfo → Option (List Procinfo)
unfolding insert_process
sort_processes [] = some []
sort_processes (p ∷ ps) = elim (sort_processes ps) [
  | none ↦ none
  | some sorted ↦ insert_process p sorted
]

module _ (t : Texts) where
  -- The processes of the boot file, then those of the components, sorted; none is an exception.
  unfoldable pub build_procinfos : Ports → Dict (List String) → List Member → Option (List Procinfo)
  unfolding add_boardreaders make_procinfo sort_processes
  build_procinfos e comps members = elim (add_boardreaders e 0 comps members) [
    | failed fault ↦ none
    | done all ↦ sort_processes (map (make_procinfo t) all)
  ]
