-- ===== src/Transition.antt =====
-- rc/control/daqinterface.py, `check_proc_transition`: what a transition leaves of the processes.
pub mod Verdict
mod Tests
use artdaq_daqinterface.Prelude.{
  ℕ, zero, suc, ◌+◌, String, ◌=ₛ◌, Bool, true, false, not, ◌||◌, List, [], ◌∷◌, ◌++◌, occurs,
  if◌then◌else◌, append_text,
}
use artdaq_daqinterface.Procinfo.{Procinfo}

-- The texts of `lastreturned` for which the check is repeated.
unfoldable pub is_pending : String → Bool
is_pending s =
    occurs "ARTDAQ PROCESS NOT YET CALLED" s
    || occurs "Stopped" s
    || occurs "Booted" s
    || occurs "Ready" s
    || occurs "Running" s
    || occurs "Paused" s
    || occurs "busy" s

-- `lastreturned == "Success" or lastreturned == target_state`
unfoldable pub is_fine : String → String → Bool
is_fine target s = s =ₛ "Success" || s =ₛ target

abbrev pub max_retries : ℕ
max_retries = 20

-- The fields of DAQInterface that the check writes, and whether it raises its exception.
pub record Checked : Type 0 where
  pub procinfos : List Procinfo
  pub transition_process_errors : List String
  pub raised : Bool

module _ (reads : ℕ → String) (target : String) where
  -- The loop of retries, with `rounds` left of it: the counter after it, and whether the process is
  -- redeemed. `reads k` is what the process's thread has set `lastreturned` to after `k` sleeps.
  unfoldable pub retry : ℕ → ℕ → Bool → ℕ × Bool
  unfolding is_pending is_fine
  retry zero retry_counter redeemed = (retry_counter, redeemed)
  retry (suc rounds) retry_counter redeemed =
      let now = suc retry_counter in
      let rest = retry rounds now (if is_fine target (reads now) then true else redeemed) in
      if is_pending (reads retry_counter) then rest else (retry_counter, redeemed)

module _ (reads : Procinfo → ℕ → String) (target : String) where
  -- `"%s: %s" % (procinfo.label, procinfo.lastreturned)`
  unfoldable pub transition_error : Procinfo → String
  unfolding append_text
  transition_error p = append_text p.label (append_text ": " p.lastreturned)

  -- After the retries: the process, and whether it is redeemed.
  unfoldable pub after_retries : Procinfo → ℕ × Bool → Procinfo × Bool
  after_retries p (retries, redeemed) =
      let p' : Procinfo = record p { lastreturned = reads p retries } in
      if redeemed then (record p' { state = target }, true) else (p', false)

  -- One process: as it is after the check, and whether it passed.
  unfoldable pub check_one : Procinfo → Procinfo × Bool
  unfolding is_fine retry after_retries
  check_one p =
      let retried = after_retries p (retry (reads p) target max_retries 0 false) in
      if is_fine target p.lastreturned then (p, true) else retried

  unfoldable pub check_all : List Procinfo → List String → Checked
  unfolding check_one transition_error
  check_all [] errors = record {
    procinfos = [];
    transition_process_errors = errors;
    raised = false;
  }
  check_all (p ∷ ps) errors =
      let (p', passed) = check_one p in
      let new = if passed then errors else errors ++ transition_error p' ∷ [] in
      let rest = check_all ps new in
      record rest { procinfos = p' ∷ rest.procinfos; raised = not passed || rest.raised }

  unfoldable pub check_proc_transition : List Procinfo → List String → Checked
  unfolding check_all
  check_proc_transition procinfos errors = check_all procinfos errors
