-- ===== src/Bodies/Booting.antt =====
-- rc/control/daqinterface.py, `do_boot` and `do_boot_impl`.
use artdaq_daqinterface.Prelude.{
  true, false, ◌&&◌, Option, none, some, List, [], ◌∷◌, length, ◌==◌, if◌then◌else◌,
}
use artdaq_daqinterface.Processes.{
  RankLine, Ranked, ranked, no_process, mismatch, add_ranks_from_ranksfile,
}
use artdaq_daqinterface.Bodies.{
  Daqinterface, Progress, goes_on, returned, raised_out, run_steps, may_raise, complete_as, Servers,
  recover_from, recover_and_return, or_recover,
}
use artdaq_daqinterface.Bodies.Reading.{
  Msgviewer, launch_raises, ends_badly, BootAnswers, reset_variables, revert_to_before,
  with_procinfos, find_processes,
}
use artdaq_daqinterface.Bodies.Launching.{launch_processes}

module _ {A : Type 0} (servers : Servers) (w : BootAnswers) where
  -- Only the part for managed processes assigns the variable that the message joins.
  unfoldable pub check_viewer : Msgviewer → Daqinterface A → Progress A
  unfolding recover_from
  check_viewer ends_badly d =
      if d.recovery.manage_processes
      then recover_and_return servers "Status error raised in msgviewer call within Popen" d
      else raised_out d
  check_viewer _ d = goes_on d

  abbrev pub launch_viewer : Msgviewer → Daqinterface A → Progress A
  launch_viewer launch_raises d =
      recover_and_return servers "Problem during messageviewer launch stage" d
  launch_viewer _ d = goes_on d

  abbrev pub keep_ranks : Daqinterface A → Ranked → Progress A
  keep_ranks d (ranked ps) = goes_on (with_procinfos ps d)
  keep_ranks d (no_process label) = raised_out d
  keep_ranks d (mismatch label) = raised_out d

  unfoldable pub add_ranks : Option (List RankLine) → Daqinterface A → Progress A
  unfolding add_ranks_from_ranksfile
  add_ranks none d = raised_out d
  add_ranks (some lines) d = keep_ranks d (add_ranks_from_ranksfile lines d.recovery.procinfos)

  -- From the launch of the message viewer on.
  unfoldable pub boot_processes : Daqinterface A → Progress A
  unfolding run_steps recover_from launch_processes check_viewer complete_as add_ranks
  boot_processes d =
      run_steps
        (launch_viewer w.msgviewer
          ∷ (λ d'.
              if d'.recovery.manage_processes then launch_processes servers w d' else goes_on d')
          ∷ check_viewer w.msgviewer
          ∷ (λ d'.
              or_recover servers (d'.recovery.manage_processes && w.logfiles_raise)
                "Unable to find logfiles for at least some of the artdaq processes" d')
          ∷ (λ d'. if w.external_run_control then add_ranks w.ranks_file d' else goes_on d')
          ∷ (λ d'. returned (record (complete_as "booting" d') { boot_completed = true }))
          ∷ [])
        d

  unfoldable pub do_boot_impl : Daqinterface A → Progress A
  unfolding run_steps revert_to_before reset_variables find_processes boot_processes
  do_boot_impl d =
      let booted =
        run_steps (may_raise w.boot_file_raises ∷ find_processes w ∷ boot_processes ∷ [])
          (reset_variables d) in
      if length d.daq_comp_list == 0 then returned (revert_to_before d) else booted

  unfoldable pub do_boot : Daqinterface A → Progress A
  unfolding do_boot_impl
  do_boot d = do_boot_impl (record d { boot_completed = false })
