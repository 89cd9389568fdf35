-- ===== src/Monitor.antt =====
-- rc/control/daqinterface.py, `check_proc_exceptions`: the periodic query of the processes' states.
pub mod First
pub mod Refusal
mod Tests
use artdaq_daqinterface.Prelude.{
  String, ◌=ₛ◌, Bool, true, false, List, [], ◌∷◌, ◌++◌, isin, if◌then◌else◌,
}
use artdaq_daqinterface.Procinfo.{Procinfo}
use artdaq_daqinterface.Requirements.{
  Searches, Requirement, Loss, tolerated, violates_rule, violates_default, lose_process,
}

-- What a process's status server answers: a status, one of the exceptions that are told apart, or
-- any other exception.
pub data Answer : Type 0 where
  status : String → Answer
  connection_refused no_route timed_out other_exception : Answer

-- The fields of DAQInterface that the check reads and writes.
pub record Monitor : Type 0 where
  pub procinfos : List Procinfo
  pub exception : Bool
  pub procs_which_already_caused_connection_refused : List String
  pub requirements : List Requirement

pub data MonitorOutcome : Type 0 where
  returned : Bool → MonitorOutcome
  returned_none : MonitorOutcome
  repeated_refusal : MonitorOutcome
  unreachable : MonitorOutcome
  query_failed : MonitorOutcome
  lost : Loss → MonitorOutcome

-- `procs_which_already_caused_connection_refused.append(procinfo.label)`
unfoldable pub note_refusal : Procinfo → Monitor → Monitor
note_refusal p m = record m {
  procs_which_already_caused_connection_refused =
      m.procs_which_already_caused_connection_refused ++ p.label ∷ [];
}

unfoldable pub loss_outcome : Loss → MonitorOutcome
loss_outcome tolerated = returned false
loss_outcome (violates_rule regexp) = lost (violates_rule regexp)
loss_outcome (violates_default description) = lost (violates_default description)

module _ (re : Searches) where
  -- A status was read from `p`, which stands between `before` and `after`: the rest of the loop's
  -- body, which ends in `return all_ok`. The log message for "Error" names the log file; the assertion
  -- of `determine_logfilename` that there is one at most is left out here, and for a refusal.
  unfoldable pub take_status :
      List Procinfo → Procinfo → List Procinfo → Bool → String → Monitor → Monitor × MonitorOutcome
  unfolding loss_outcome lose_process
  take_status before p after all_ok s m =
      let p' : Procinfo = record p { lastreturned = s; state = s } in
      let (reqs, loss) = lose_process re (before ++ after) p' m.requirements in
      if s =ₛ "Error"
      then (record m { procinfos = before ++ after; requirements = reqs }, loss_outcome loss)
      else (record m { procinfos = before ++ p' ∷ after }, returned all_ok)

  -- `go_on` is the rest of the loop, with `all_ok` set to False.
  unfoldable pub by_answer :
      Answer
      → List Procinfo
      → Procinfo
      → List Procinfo
      → Bool
      → Monitor
      → (Monitor → Monitor × MonitorOutcome)
      → Monitor × MonitorOutcome
  unfolding take_status isin note_refusal
  by_answer (status s) before p after all_ok m go_on = take_status before p after all_ok s m
  by_answer connection_refused before p after all_ok m go_on =
      if isin p.label m.procs_which_already_caused_connection_refused
      then (m, repeated_refusal)
      else go_on (note_refusal p m)
  by_answer no_route before p after all_ok m go_on = (m, unreachable)
  by_answer timed_out before p after all_ok m go_on = go_on m
  by_answer other_exception before p after all_ok m go_on = (m, query_failed)

  -- The loop over the processes; those before have been passed over by `continue`.
  unfoldable pub check_loop :
      (Procinfo → Answer)
      → List Procinfo
      → List Procinfo
      → Bool
      → Monitor
      → Monitor × MonitorOutcome
  unfolding by_answer
  check_loop ask before [] all_ok m = (m, returned_none)
  check_loop ask before (p ∷ after) all_ok m =
      let go_on = λ (m' : Monitor). check_loop ask (before ++ p ∷ []) after false m' in
      by_answer (ask p) before p after all_ok m go_on

  unfoldable pub check_proc_exceptions : (Procinfo → Answer) → Monitor → Monitor × MonitorOutcome
  unfolding check_loop
  check_proc_exceptions ask m =
      if m.exception then (m, returned false) else check_loop ask [] m.procinfos true m
