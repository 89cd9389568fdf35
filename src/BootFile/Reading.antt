-- ===== src/BootFile/Reading.antt =====
-- rc/control/config_functions_local.py, `get_boot_info_base`: the loop over the lines.
use artdaq_daqinterface.Prelude.{
  ℕ, suc, ◌+◌, ◌-◌, String, ◌=ₛ◌, Bool, true, false, not, ◌||◌, Option, none, some, List, [], ◌∷◌,
  ◌++◌, occurs, append_text, ◌==◌, if◌then◌else◌, Dict, lookup, insert,
}
use artdaq_daqinterface.Bookkeeping.Graph.{Subsystem}
use artdaq_daqinterface.BootFile.{
  undefined_variable, no_number, subsystem_syntax, inconsistent, BootOutcome, failed, done,
  ◌then_do◌, LinePatterns, Ports, given, formatted, Member, BootReading, initial_member_dict,
  initial_subsystem_dict, text_of, unless_set, is_filled, is_filled_member, enter_subsystem,
  reset_member, default_port,
}

module _ (re : LinePatterns) (e : Ports) where
  unfoldable pub note_subsystem : String → BootReading → BootOutcome BootReading
  unfolding enter_subsystem
  note_subsystem line r =
      let entered : BootOutcome BootReading = elim (re.subsystem_entry line) [
        | none ↦ failed (subsystem_syntax line)
        | some (key, value) ↦
            done (record r { subsystem_dict = enter_subsystem key value r.subsystem_dict })
      ] in
      if occurs "Subsystem" line then entered else done r

  unfoldable pub note_member : String → BootReading → BootReading
  unfolding insert
  note_member line r =
      let names_process =
        occurs "EventBuilder" line
        || occurs "DataLogger" line
        || occurs "Dispatcher" line
        || occurs "RoutingManager" line in
      let entered : BootReading = elim (re.member_entry line) [
        | none ↦ r
        | some (name, (key, value)) ↦ record r {
          member_dict = insert key (some value) (insert "name" (some name) r.member_dict);
          num_expected_processes =
              if key =ₛ "host" then suc r.num_expected_processes else r.num_expected_processes;
        }
      ] in
      if names_process then entered else r

  unfoldable pub note_overwrite : String → BootReading → BootReading
  unfolding insert
  note_overwrite line r = elim (re.overwrite line) [
    | none ↦ r
    | some (key, value) ↦ record r {
      bootfile_fhicl_overwrites = insert key value r.bootfile_fhicl_overwrites;
    }
  ]

  unfoldable pub flush_subsystem : BootReading → BootReading
  unfolding is_filled insert
  flush_subsystem r =
      let table = r.subsystem_dict in
      let source = text_of "source" table in
      let destination = text_of "destination" table in
      let subsystem : Subsystem = record {
        sources = if source =ₛ "not set" then [] else re.split source;
        destination = if destination =ₛ "not set" then none else some destination;
        fragment_mode = not (re.says_false (text_of "fragmentMode" table));
      } in
      let cleared = insert "fragmentMode" (some "not set") (
        insert "destination" (some "not set")
          (insert "source" (some "not set") (insert "id" none table))) in
      if is_filled table
      then record r {
        subsystems = insert (text_of "id" table) subsystem r.subsystems;
        subsystem_dict = cleared;
      }
      else r

  unfoldable pub member_of : ℕ → Dict (Option String) → Member
  unfolding lookup
  member_of rank table =
      let port = text_of "port" table in
      let allowed_processors = text_of "allowed_processors" table in
      record {
        name = text_of "name" table;
        rank = rank;
        host = text_of "host" table;
        port = if port =ₛ "not set" then formatted (default_port e rank) else given port;
        label = text_of "label" table;
        subsystem = unless_set "1" (text_of "subsystem" table);
        allowed_processors =
            if allowed_processors =ₛ "not set" then none else some allowed_processors;
        target = text_of "target" table;
        prepend = unless_set "" (text_of "prepend" table);
      }

  -- The rank is `len(self.daq_comp_list) + num_actual_processes - 1` with the new count.
  unfoldable pub flush_member : BootReading → BootReading
  unfolding is_filled_member member_of reset_member
  flush_member r =
      let rank = e.num_components + suc r.num_actual_processes - 1 in
      if is_filled_member r.member_dict
      then record r {
        num_actual_processes = suc r.num_actual_processes;
        procinfos = r.procinfos ++ member_of rank r.member_dict ∷ [];
        member_dict = reset_member r.member_dict;
      }
      else r

  unfoldable pub flush : Bool → String → BootReading → BootReading
  unfolding flush_subsystem flush_member
  flush is_last line r =
      if re.is_comment line || re.is_blank line || is_last
      then flush_member (flush_subsystem r)
      else r

  unfoldable pub read_entry : Bool → String → BootReading → BootOutcome BootReading
  unfolding note_subsystem note_member note_overwrite flush
  read_entry is_last line r = note_subsystem line r then_do λ r'.
      done (flush is_last line (note_overwrite line (note_member line r')))

  unfoldable pub read_flag : Bool → String → BootReading → BootOutcome BootReading
  unfolding read_entry
  read_flag is_last line r =
      if re.manages line
      then done (record r { manage_processes = some true })
      else (if re.manages_not line
          then done (record r { manage_processes = some false })
          else (if re.disables_recovery line
              then done (record r { disable_recovery = true })
              else (if re.enables_recovery line
                  then done (record r { disable_recovery = false })
                  else read_entry is_last line r)))

  unfoldable pub read_setting : Bool → String → BootReading → BootOutcome BootReading
  unfolding read_flag
  read_setting is_last line r =
      let flags = read_flag is_last line r in
      let level : BootOutcome BootReading = elim (re.debug_level line) [
        | none ↦ flags
        | some text ↦ elim (re.int text) [
          | none ↦ failed (no_number text)
          | some n ↦ done (record r { debug_level = some n })
        ]
      ] in
      let address : BootOutcome BootReading = elim (re.request_address line) [
        | none ↦ level
        | some text ↦ done (record r { request_address = some text })
      ] in
      elim (re.daq_setup_script line) [
        | none ↦ address
        | some script ↦ done (record r {
          daq_setup_script = some script;
          daq_dir = some (append_text (re.dirname script) "/");
        })
      ]

  -- One line; the loop goes on to the next one early where a comment or a setting is found.
  unfoldable pub read_line : Bool → String → BootReading → BootOutcome BootReading
  unfolding read_setting
  read_line is_last line r =
      let expanded : BootOutcome BootReading = elim (re.expand line) [
        | none ↦ failed (undefined_variable line)
        | some text ↦
            if re.find_process_manager_variable text then done r else read_setting is_last text r
      ] in
      if re.is_comment line then done r else expanded

  unfoldable pub read_lines : List String → BootReading → BootOutcome BootReading
  unfolding read_line
  read_lines [] r = done r
  read_lines (line ∷ []) r = read_line true line r
  read_lines (line ∷ next ∷ lines) r =
      read_line false line r then_do λ r'. read_lines (next ∷ lines) r'

  unfoldable pub default_subsystems : Dict Subsystem → Dict Subsystem
  default_subsystems [] =
      ("1", record { sources = []; destination = none; fragment_mode = true }) ∷ []
  default_subsystems (s ∷ ss) = s ∷ ss

  unfoldable pub check_counts : BootReading → BootOutcome BootReading
  check_counts r =
      if r.num_expected_processes == r.num_actual_processes
      then done r
      else failed (inconsistent r.num_expected_processes r.num_actual_processes)

  unfoldable pub get_boot_info : List String → BootReading → BootOutcome BootReading
  unfolding read_lines default_subsystems check_counts
  get_boot_info lines r =
      read_lines lines (record r {
        member_dict = initial_member_dict;
        subsystem_dict = initial_subsystem_dict;
        num_expected_processes = 0;
        num_actual_processes = 0;
      })
      then_do λ r'. check_counts (record r' { subsystems = default_subsystems r'.subsystems })
