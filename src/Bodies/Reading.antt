-- ===== src/Bodies/Reading.antt =====
-- rc/control/daqinterface.py, `do_boot_impl`: `reset_variables`, and the processes from the boot file.
use artdaq_daqinterface.Prelude.{
  ℕ, String, Bool, true, false, Option, none, some, List, [], ◌∷◌, length,
}
use artdaq_daqinterface.Procinfo.{Procinfo}
use artdaq_daqinterface.Component.{state, revert_state_change}
use artdaq_daqinterface.BootFile.{LinePatterns, Ports, BootReading}
use artdaq_daqinterface.Requirements.{Searches}
use artdaq_daqinterface.Heartbeats.{Pulse, quiet}
use artdaq_daqinterface.Processes.{RankLine}
use artdaq_daqinterface.Bodies.{Daqinterface, Progress, goes_on, returned, raised_out}
use artdaq_daqinterface.Bodies.Processes.{Texts, read_boot_file, build_procinfos}

-- The message viewer: it is not wanted or found, its launch raises an exception, or it is launched
-- and ends with the status 0 or with another one.
pub data Msgviewer : Type 0 where
  no_viewer launch_raises ends_well ends_badly : Msgviewer

-- The settings, and what the file system, the shell and the servers answer to a boot.
-- `labels_on_host` is what a check for the processes finds, by the number of the check, and
-- `status_of` what a server returns once it answers, if it ever does.
pub record BootAnswers : Type 0 where
  pub boot_file_raises : Bool
  pub boot_lines : List String
  pub patterns : LinePatterns
  pub ports : Ports
  pub texts : Texts
  pub msgviewer : Msgviewer
  pub preparation_raises : Bool
  pub launch_procs_raises : Bool
  pub max_num_launch_procs_checks : ℕ
  pub search_raises : ℕ → Bool
  pub labels_on_host : ℕ → List Procinfo → String → List String
  pub label_suffix : String
  pub searches : Searches
  pub server_raises : Procinfo → Bool
  pub status_of : Procinfo → Option String
  pub logfiles_raise : Bool
  pub external_run_control : Bool
  pub ranks_file : Option (List RankLine)

abbrev pub flag_or : Bool → Option Bool → Bool
flag_or b none = b
flag_or b (some c) = c

abbrev pub is_quiet : Pulse → Bool
is_quiet quiet = true
is_quiet pulse = false

-- `_do_config_prepare` sets a configuration where there is none.
abbrev pub configured : List String → List String
configured [] = "ots_config" ∷ []
configured (c ∷ cs) = c ∷ cs

module _ {A : Type 0} where
  unfoldable pub reset_variables : Daqinterface A → Daqinterface A
  reset_variables d = record d {
    recovery = record (d.recovery) {
      in_recovery = false;
      last_critical_error = "";
      manage_processes = true;
      disable_recovery = false;
      called_launch_procs = false;
      procinfos = [];
    };
    subsystems = [];
    exception = false;
    run_number = none;
  }

  -- `self.revert_state_change(self.name, self.state(self.name))`
  unfoldable pub revert_to_before : Daqinterface A → Daqinterface A
  unfolding revert_state_change state
  revert_to_before d =
      let c = d.recovery.component in
      record d {
        recovery = record (d.recovery) {
          component = revert_state_change c.name (state c.name c) c;
        };
      }

  unfoldable pub revert_failed_boot : Daqinterface A → Daqinterface A
  unfolding reset_variables revert_to_before
  revert_failed_boot d = revert_to_before (reset_variables d)

  abbrev pub with_procinfos : List Procinfo → Daqinterface A → Daqinterface A
  with_procinfos ps d = record d { recovery = record (d.recovery) { procinfos = ps } }

  unfoldable pub take_reading : BootReading → Daqinterface A → Daqinterface A
  take_reading r d = record d {
    recovery = record (d.recovery) {
      manage_processes = flag_or d.recovery.manage_processes r.manage_processes;
      disable_recovery = r.disable_recovery;
    };
    subsystems = r.subsystems;
  }

  abbrev pub keep_procinfos : Daqinterface A → Option (List Procinfo) → Progress A
  keep_procinfos d none = raised_out d
  keep_procinfos d (some ps) = goes_on (with_procinfos ps d)

  -- From the boot file's lines to the processes: an exception of the reading is caught, and the
  -- state is reverted; one that a component's list raises is not.
  unfoldable pub find_processes : BootAnswers → Daqinterface A → Progress A
  unfolding read_boot_file revert_failed_boot take_reading build_procinfos
  find_processes w d =
      let e : Ports = record (w.ports) { num_components = length d.daq_comp_list } in
      elim (read_boot_file w.texts w.patterns e w.boot_lines) [
        | none ↦ returned (revert_failed_boot d)
        | some r ↦
            keep_procinfos (take_reading r d)
              (build_procinfos w.texts e d.daq_comp_list r.procinfos)
      ]
