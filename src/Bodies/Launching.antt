-- ===== src/Bodies/Launching.antt =====
-- rc/control/daqinterface.py, `do_boot_impl`: the launch of the processes.
use artdaq_daqinterface.Prelude.{
  ℕ, zero, suc, String, Bool, true, false, not, ◌||◌, Option, none, some, List, [], ◌∷◌, length,
  leb, ◌==◌, occurs, if◌then◌else◌,
}
use artdaq_daqinterface.Procinfo.{Procinfo}
use artdaq_daqinterface.Heartbeats.{Heard, check_proc_heartbeats}
use artdaq_daqinterface.Bodies.{
  Daqinterface, Progress, goes_on, raised_out, endless, no_status, no_fuel, run_steps, may_raise,
  Servers, recover_from, recover_and_return, or_recover,
}
use artdaq_daqinterface.Bodies.Reading.{BootAnswers, is_quiet, configured, with_procinfos}

-- The label of a timeout in the settings, by the type of the process; `before` is the value that the
-- variable has from the process before, none where it has none.
unfoldable pub timeout_for : Option String → Procinfo → Option String
timeout_for before p =
    if occurs "BoardReader" p.name
    then some "boardreader_timeout"
    else (if occurs "EventBuilder" p.name
        then some "eventbuilder_timeout"
        else (if occurs "RoutingManager" p.name
            then some "routingmanager_timeout"
            else (if occurs "DataLogger" p.name
                then some "datalogger_timeout"
                else (if occurs "Dispatcher" p.name then some "dispatcher_timeout" else before))))

abbrev pub lacks_timeout : Option String → Bool
lacks_timeout none = true
lacks_timeout (some s) = false

-- Whether the creation of the servers raises an exception: by itself, or for want of a timeout.
unfoldable pub clients_fail : (Procinfo → Bool) → Option String → List Procinfo → Bool
unfolding timeout_for
clients_fail server_raises before [] = false
clients_fail server_raises before (p ∷ ps) =
    let timeout = timeout_for before p in
    let rest = clients_fail server_raises timeout ps in
    if lacks_timeout timeout then true else (if server_raises p then true else rest)

-- The processes with the status that their servers returned, or none where one never answers.
unfoldable pub wait_for_status : (Procinfo → Option String) → List Procinfo → Option (List Procinfo)
wait_for_status status_of [] = some []
wait_for_status status_of (p ∷ ps) = elim (status_of p) [
  | none ↦ none
  | some s ↦ elim (wait_for_status status_of ps) [
    | none ↦ none
    | some rest ↦ some ((record p { lastreturned = s }) ∷ rest)
  ]
]

module _ {A : Type 0} (servers : Servers) (w : BootAnswers) where
  -- `self.check_proc_heartbeats(False)`, the check of this number; it does not read the requirements.
  unfoldable pub launch_check : ℕ → Daqinterface A → Heard
  unfolding check_proc_heartbeats
  launch_check n d =
      check_proc_heartbeats w.searches (w.labels_on_host n) w.label_suffix false
        d.recovery.component.state d.recovery.procinfos []

  -- Whether an exception leaves the check: one of the search on a host, or one about a missing process.
  unfoldable pub check_fails : ℕ → Daqinterface A → Bool
  unfolding launch_check
  check_fails n d = w.search_raises n || not (is_quiet (launch_check n d).pulse)

  -- The loop that waits for the processes, where the time between two checks is a quotient by their
  -- maximal number, whose division by 0 raises an exception; it starts from the check after the `checks` ones that were made;
  -- `fuel` bounds the checks, and without it the loop does not end.
  unfoldable pub wait_for_processes : (fuel checks : ℕ) → Daqinterface A → Progress A
  unfolding launch_check check_fails recover_from
  wait_for_processes zero checks d = endless no_fuel
  wait_for_processes (suc fuel) checks d =
      let num_launch_procs_checks = suc checks in
      let heard = launch_check num_launch_procs_checks d in
      let next = wait_for_processes fuel num_launch_procs_checks d in
      if check_fails num_launch_procs_checks d
      then raised_out d
      else (if length heard.found_processes == length d.recovery.procinfos
          then goes_on d
          else (if w.max_num_launch_procs_checks == 0
              then raised_out d
              else (if leb w.max_num_launch_procs_checks num_launch_procs_checks
                  then recover_and_return servers "Problem launching the artdaq processes" d
                  else next)))

  abbrev pub all_answered : Daqinterface A → Option (List Procinfo) → Progress A
  all_answered d none = endless (no_status w.status_of d.recovery.procinfos)
  all_answered d (some ps) = goes_on (with_procinfos ps d)

  -- The part for processes that are managed; the thread that prepares the configuration is started
  -- before the loop, and reads which configurations are set.
  unfoldable pub launch_processes : Daqinterface A → Progress A
  unfolding run_steps recover_from wait_for_processes clients_fail wait_for_status
  launch_processes d =
      run_steps
        (may_raise w.preparation_raises
          ∷ (λ d'.
              goes_on
                (record d' { recovery = record (d'.recovery) { called_launch_procs = true } }))
          ∷ or_recover servers w.launch_procs_raises "An exception was thrown in launch_procs()"
          ∷ (λ d'. goes_on (record d' {
            config_prepared = false;
            subconfigs_for_run = configured d'.subconfigs_for_run;
            config_prep_thread = some (configured d'.subconfigs_for_run);
          }))
          ∷ wait_for_processes (suc w.max_num_launch_procs_checks) 0
          ∷ (λ d'.
              or_recover servers (clients_fail w.server_raises none d'.recovery.procinfos)
                "Problem creating server" d')
          ∷ (λ d'. all_answered d' (wait_for_status w.status_of d'.recovery.procinfos))
          ∷ [])
        d
