-- ===== src/Lib.antt =====
-- artdaq-daqinterface, the run control of artdaq data acquisition systems (rc/).
--
-- The program. A `DAQInterface` (rc/control/daqinterface.py) stands between the run control of an
-- experiment and the processes of an artdaq system: boardreaders, event builders, data loggers,
-- dispatchers and routing managers, each described by a `Procinfo` and grouped into subsystems
-- that send data to one another. It is a `Component` (rc/control/component.py), which keeps the
-- state of the run. A request of run control goes to `Component.state_change`, which accepts it or
-- warns, enters the transition's state and calls the transition function; in `DAQInterface` that
-- function only sets a flag. Once a second `runner` serves one flag: booting checks the boot
-- information and reads the FHiCL documents, configuring rewrites them
-- (rc/control/bookkeeping.py), and each transition is sent to the processes and then checked.
-- Between transitions `runner` checks the processes, and where one is lost the requirements decide
-- whether the run goes on.
--
-- Files and code. Paths are those of the repository; a module's definitions stand in its own file
-- and its theorems in its children, next to tests.
--   Prelude       names that all share: Boolean tests, lists over native numbers, dictionaries, text
--   Procinfo      rc/control/daqinterface.py, class `Procinfo`: its data
--   Component     rc/control/component.py, class `Component`: `state`, `complete_state_change`,
--                 `revert_state_change`, `state_change`, `trace_get`, `trace_set` and the transition
--                 functions (`component_hook`), with those of `DAQInterface` (`daqinterface_hook`)
--   Runner        rc/control/daqinterface.py, `runner`
--   Bookkeeping   rc/control/bookkeeping.py, first half of
--                 `bookkeeping_for_fhicl_documents_artdaq_v3_base`: fragment ids and space of the
--                 boardreaders (Readers), `find_cycle_in_subsystem_graph` (Graph), the three
--                 recursive calculations with a cache (Memo) and their tables (Tables)
--   Requirements  rc/control/daqinterface.py, `init_process_requirements` and
--                 `throw_exception_if_losing_process_violates_requirements` (`lose_process`)
--   Monitor       rc/control/daqinterface.py, `check_proc_exceptions`
--   Transition    rc/control/daqinterface.py, `check_proc_transition`
--   Heartbeats    rc/control/manage_processes_direct.py, `check_proc_heartbeats_base`, with `lose_process`
--   Boot          rc/control/daqinterface.py, `check_boot_info` and `determine_logfilename`
--   Include       rc/control/daqinterface.py, `Procinfo.recursive_include`
--   Processes     rc/control/daqinterface.py, `Procinfo.__lt__` (`is_upstream`),
--                 `add_ranks_from_ranksfile`, `readjust_process_priorities`
--   Fhicl         rc/control/utilities.py, `enclosing_table_range` and, in Tables, `table_range`
--   Command       rc/control/daqinterface.py, `do_command` and `process_command`: the order of the
--                 subsystems (Order, Sources, Ends) and the sending of a transition to the processes
--   Recover       rc/control/daqinterface.py, `do_recover`, `alert_and_recover`, `do_terminate`,
--                 `revert_failed_transition`; Rounds puts them into `runner`
--   Wiring        rc/control/bookkeeping.py, the host map, `_procinfos_by_ss_type` and, in Nodes,
--                 `create_sources_or_destinations_string`
--   Routing       rc/control/bookkeeping.py, `get_router_process_identifier` and the loop that fills
--                 `routing_base_ports` and `router_process_hostnames`
--   BootFile      rc/control/config_functions_local.py, `get_boot_info_base` (Reading), and the
--                 boardreaders of `do_boot_impl` in rc/control/daqinterface.py (Boardreaders)
--   Bodies        rc/control/daqinterface.py, the bodies of the transitions: `do_start_running` and
--                 `do_stop_running` (Running), `do_boot` with `do_boot_impl` (Processes, Reading,
--                 Launching, Booting), `do_config` with `_do_config_prepare` and `archive_documents`
--                 (Documents, Archive, Configuring), and a round of `runner` that serves one (Served)
--   Inhibit       rc/InhibitManager/InhibitManager.py, class `InhibitManager`
-- Objects are records that are passed on; exceptions are results; a dictionary is an association
-- list in the order of insertion; the value None is `none`. A loop with an early exit is a
-- recursion whose rest is not used where the loop is left.
--
-- Fuel. The depth-first search for a cycle has one level for each subsystem and one more, since no
-- subsystem is twice on a path of the search; the recursive calculations need as many, since they
-- run on a graph without a cycle. The inclusion of documents has fuel above the depth to which
-- documents are nested, without which the program does not end either. `table_range` has fuel for
-- its calls of itself. The loop of retries after a transition has the program's own twenty rounds.
-- The loop that orders the subsystems has one round for each subsystem, since a round that is not
-- the last one places a subsystem. The loop that waits for launched processes has one check more
-- than the maximum. The inclusion of documents in Bodies has Python's recursion limit for its
-- fuel.
--
-- Bodies. A body is a list of statements, each of which goes on, returns, is left by an
-- exception, or is in a loop that does not end. The answers of the file system, the shell and the
-- experiment's functions are the fields of a record for each transition. A recovery too is left
-- by an exception, where the search for the number of a process raises one, and with it the body
-- or the round that runs it. The thread that prepares a configuration reads the names of the
-- configurations when it is started, and its documents are taken where `do_config` waits for it.
--
-- Parameters. Regular expressions (`re.search`), the file system (`os.path.exists`, the lines of
-- a file), what a process's servers answer, the search for the number of a process, which may
-- raise an exception, the labels of the processes on a host, `kill_procs`, and the values that a
-- process's thread sets during the retries are arguments. Fractions of the requirements are in
-- millionths and `int(float(size * memory_scale_factor))` is a function on numbers, as the model
-- has no floating point. A port is a text and, for the comparison, the number that it stands for.
--
-- Not modelled. Log messages, timing traces and times of day; XML-RPC, sockets and threads (the
-- threads for the processes of one type and priority run in the order of the list); starting,
-- killing and finding processes (the rest of rc/control/manage_processes_direct.py,
-- `mopup_process`); `do_enable`, `do_disable` and the trace functions, which are an argument of
-- the model of `runner`, as are the bodies of the transitions, which Bodies has with its own model
-- of a round; the substitutions in FHiCL text and the private networks in the second half of the
-- bookkeeping (the entries of Wiring are records, not text); run records
-- (rc/control/save_run_record.py) and the configuration databases
-- (rc/control/config_functions_database_v2.py); the helpers of rc/io, rc/util and rc/threading;
-- shell scripts and the example configurations.
pub mod Prelude
pub mod Component
pub mod Procinfo
pub mod Bookkeeping
pub mod Requirements
pub mod Monitor
pub mod Transition
pub mod Boot
pub mod Runner
pub mod Fhicl
pub mod Inhibit
pub mod Processes
pub mod Include
pub mod Command
pub mod Recover
pub mod Wiring
pub mod BootFile
pub mod Heartbeats
pub mod Routing
pub mod Bodies
