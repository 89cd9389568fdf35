-- ===== src/Bodies/Diagram/Booting.antt =====
-- rc/control/daqinterface.py: the states that `do_boot` ends in.
use artdaq_daqinterface.Prelude.{
  ℕ, zero, suc, String, ◌≡◌, refl, inl, inr, true, false, ◌&&◌, Option, none, some, List, [], ◌∷◌,
  length, leb, ◌==◌, eq_refl, if◌then◌else◌, ◌+◌, ◌≤◌, arith, if_both, if_cases, option_both,
}
use artdaq_daqinterface.Procinfo.{Procinfo}
use artdaq_daqinterface.Component.{Component, revert_state_change, state}
use artdaq_daqinterface.BootFile.{Ports}
use artdaq_daqinterface.Processes.{
  RankLine, Ranked, ranked, no_process, mismatch, add_ranks_from_ranksfile,
}
use artdaq_daqinterface.Bodies.{
  Daqinterface, goes_on, returned, complete_as, may_raise, Servers, or_recover,
}
use artdaq_daqinterface.Bodies.Steps.{all_steps, ◌next_step◌}
use artdaq_daqinterface.Bodies.Processes.{read_boot_file, build_procinfos}
use artdaq_daqinterface.Bodies.Reading.{
  Msgviewer, no_viewer, launch_raises, ends_well, ends_badly, BootAnswers, reset_variables,
  revert_to_before, revert_failed_boot, take_reading, keep_procinfos, find_processes, configured,
}
use artdaq_daqinterface.Bodies.Launching.{
  clients_fail, wait_for_status, launch_check, check_fails, wait_for_processes, all_answered,
  launch_processes,
}
use artdaq_daqinterface.Bodies.Booting.{
  check_viewer, launch_viewer, keep_ranks, add_ranks, boot_processes, do_boot_impl, do_boot,
}
use artdaq_daqinterface.Bodies.Diagram.{
  Open, Settled, Ends, run_steps-Ends, may_raise-Ends, recover_and_return-Ends, or_recover-Ends,
  complete_as-At,
}

module _ {A : Type 0} (before : Component A) (target : String) where
  pub revert-Settled :
      (d : Daqinterface A) → Open before d → Settled before target (revert_to_before d)
  unfolding revert_to_before revert_state_change state
  revert-Settled d (inl at) = inr (inr (rw eq_refl (rw at.0 refl, at.1, at.2)))
  revert-Settled d (inr at) = inr (inl (rw eq_refl (rw at.0 refl, at.1, at.2)))

  keep_procinfos-Ends :
      (d : Daqinterface A) (o : Option (List Procinfo))
      → Open before d
      → Ends before target (keep_procinfos d o)
  keep_procinfos-Ends d none h = h
  keep_procinfos-Ends d (some ps) h = h

  find_processes-Ends :
      (w : BootAnswers) (d : Daqinterface A)
      → Open before d
      → Ends before target (find_processes w d)
  unfolding find_processes revert_failed_boot take_reading reset_variables
  find_processes-Ends w d h =
      let e : Ports = record (w.ports) { num_components = length d.daq_comp_list } in
      option_both (Ends before target) (read_boot_file w.texts w.patterns e w.boot_lines)
        (revert-Settled (reset_variables d) h)
        (λ r.
          keep_procinfos-Ends (take_reading r d)
            (build_procinfos w.texts e d.daq_comp_list r.procinfos) h)

module _ {A : Type 0} (servers : Servers) (w : BootAnswers) (before : Component A) where
  wait_for_processes-Ends :
      (fuel checks : ℕ) (d : Daqinterface A)
      → suc w.max_num_launch_procs_checks ≤ fuel + checks
      → checks ≤ w.max_num_launch_procs_checks
      → Open before d
      → Ends before "booted" (wait_for_processes servers w fuel checks d)
  unfolding wait_for_processes
  wait_for_processes-Ends zero checks d enough few h = absurd (omega (arith, enough, few))
  wait_for_processes-Ends (suc fuel) checks d enough few h =
      let E = Ends before "booted" in
      let heard = launch_check servers w (suc checks) d in
      if_both E (check_fails servers w (suc checks) d) h (
        if_both E (length heard.found_processes == length d.recovery.procinfos) h (
          if_both E (w.max_num_launch_procs_checks == 0) h (
            if_cases E (leb w.max_num_launch_procs_checks (suc checks))
              (λ last.
                recover_and_return-Ends before "booted" servers
                  "Problem launching the artdaq processes" d h)
              (λ more.
                wait_for_processes-Ends fuel (suc checks) d (omega (arith, enough)) (ground arith)
                  h))))

  all_answered-Ends :
      (d : Daqinterface A) (o : Option (List Procinfo))
      → wait_for_status w.status_of d.recovery.procinfos ≡ o
      → Open before d
      → Ends before "booted" (all_answered servers w d o)
  all_answered-Ends d none e h = e
  all_answered-Ends d (some ps) e h = h

  launch_processes-Ends :
      (d : Daqinterface A) → Open before d → Ends before "booted" (launch_processes servers w d)
  unfolding launch_processes
  launch_processes-Ends d h =
      run_steps-Ends before "booted"
        (may_raise w.preparation_raises
          ∷ (λ d'.
              goes_on
                (record d' { recovery = record (d'.recovery) { called_launch_procs = true } }))
          ∷ or_recover servers w.launch_procs_raises "An exception was thrown in launch_procs()"
          ∷ (λ d'. goes_on (record d' {
            config_prepared = false;
            subconfigs_for_run = configured d'.subconfigs_for_run;
            config_prep_thread = some (configured d'.subconfigs_for_run);
          }))
          ∷ wait_for_processes servers w (suc w.max_num_launch_procs_checks) 0
          ∷ (λ d'.
              or_recover servers (clients_fail w.server_raises none d'.recovery.procinfos)
                "Problem creating server" d')
          ∷ (λ d'. all_answered servers w d' (wait_for_status w.status_of d'.recovery.procinfos))
          ∷ [])
        d
        (may_raise-Ends before "booted" w.preparation_raises
          next_step (λ d' h'. h')
          next_step or_recover-Ends before "booted" servers w.launch_procs_raises
              "An exception was thrown in launch_procs()"
          next_step (λ d' h'. h')
          next_step (λ d' h'.
              wait_for_processes-Ends (suc w.max_num_launch_procs_checks) 0 d' (omega arith)
                (omega arith) h')
          next_step (λ d' h'.
              or_recover-Ends before "booted" servers
                (clients_fail w.server_raises none d'.recovery.procinfos) "Problem creating server"
                d' h')
          next_step (λ d' h'.
              all_answered-Ends d' (wait_for_status w.status_of d'.recovery.procinfos) refl h')
          next_step all_steps)
        h

  check_viewer-Ends :
      (v : Msgviewer) (d : Daqinterface A)
      → Open before d
      → Ends before "booted" (check_viewer servers w v d)
  unfolding check_viewer
  check_viewer-Ends no_viewer d h = h
  check_viewer-Ends launch_raises d h = h
  check_viewer-Ends ends_well d h = h
  check_viewer-Ends ends_badly d h =
      if_both (Ends before "booted") d.recovery.manage_processes
        (recover_and_return-Ends before "booted" servers
          "Status error raised in msgviewer call within Popen" d h)
        h

  launch_viewer-Ends :
      (v : Msgviewer) (d : Daqinterface A)
      → Open before d
      → Ends before "booted" (launch_viewer servers w v d)
  launch_viewer-Ends no_viewer d h = h
  launch_viewer-Ends launch_raises d h =
      recover_and_return-Ends before "booted" servers "Problem during messageviewer launch stage" d
        h
  launch_viewer-Ends ends_well d h = h
  launch_viewer-Ends ends_badly d h = h

  keep_ranks-Ends :
      (d : Daqinterface A) (r : Ranked)
      → Open before d
      → Ends before "booted" (keep_ranks servers w d r)
  keep_ranks-Ends d (ranked ps) h = h
  keep_ranks-Ends d (no_process label) h = h
  keep_ranks-Ends d (mismatch label) h = h

  add_ranks-Ends :
      (lines : Option (List RankLine)) (d : Daqinterface A)
      → Open before d
      → Ends before "booted" (add_ranks servers w lines d)
  unfolding add_ranks
  add_ranks-Ends none d h = h
  add_ranks-Ends (some lines) d h =
      keep_ranks-Ends d (add_ranks_from_ranksfile lines d.recovery.procinfos) h

  boot_processes-Ends :
      (d : Daqinterface A) → Open before d → Ends before "booted" (boot_processes servers w d)
  unfolding boot_processes
  boot_processes-Ends d h =
      let E = Ends before "booted" in
      run_steps-Ends before "booted"
        (launch_viewer servers w w.msgviewer
          ∷ (λ d'.
              if d'.recovery.manage_processes then launch_processes servers w d' else goes_on d')
          ∷ check_viewer servers w w.msgviewer
          ∷ (λ d'.
              or_recover servers (d'.recovery.manage_processes && w.logfiles_raise)
                "Unable to find logfiles for at least some of the artdaq processes" d')
          ∷ (λ d'.
              if w.external_run_control then add_ranks servers w w.ranks_file d' else goes_on d')
          ∷ (λ d'. returned (record (complete_as "booting" d') { boot_completed = true }))
          ∷ [])
        d
        (launch_viewer-Ends w.msgviewer
          next_step (λ d' h'.
              if_both E d'.recovery.manage_processes (launch_processes-Ends d' h') h')
          next_step check_viewer-Ends w.msgviewer
          next_step (λ d' h'.
              or_recover-Ends before "booted" servers
                (d'.recovery.manage_processes && w.logfiles_raise)
                "Unable to find logfiles for at least some of the artdaq processes" d' h')
          next_step (λ d' h'.
              if_both E w.external_run_control (add_ranks-Ends w.ranks_file d' h') h')
          next_step (λ d' h'. inl (complete_as-At before "booting" d' h'))
          next_step all_steps)
        h

  pub do_boot-Ends :
      (d : Daqinterface A) → Open before d → Ends before "booted" (do_boot servers w d)
  unfolding do_boot do_boot_impl reset_variables
  do_boot-Ends d h =
      if_both (Ends before "booted") (length d.daq_comp_list == 0)
        (revert-Settled before "booted" (record d { boot_completed = false }) h)
        (run_steps-Ends before "booted"
          (may_raise w.boot_file_raises ∷ find_processes w ∷ boot_processes servers w ∷ [])
          (reset_variables (record d { boot_completed = false }))
          (may_raise-Ends before "booted" w.boot_file_raises
            next_step find_processes-Ends before "booted" w
            next_step boot_processes-Ends
            next_step all_steps)
          h)
