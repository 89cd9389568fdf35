-- ===== src/Monitor/First.antt =====
-- rc/control/daqinterface.py, `check_proc_exceptions`: which processes a check gets to.
use artdaq_daqinterface.Prelude.{String, ◌≡◌, ◌∙◌, ap, sym, Bool, true, false, List, [], ◌∷◌}
use artdaq_daqinterface.Procinfo.{Procinfo}
use artdaq_daqinterface.Requirements.{Searches}
use artdaq_daqinterface.Monitor.{
  Answer, status, Monitor, take_status, by_answer, check_loop, check_proc_exceptions,
}

module _ (re : Searches) (ask : Procinfo → Answer) (p : Procinfo) (after : List Procinfo)
    (m : Monitor) where
  loop_status :
      (before : List Procinfo) (all_ok : Bool) (s : String)
      → ask p ≡ status s
      → check_loop re ask before (p ∷ after) all_ok m ≡ take_status re before p after all_ok s m
  unfolding check_loop by_answer
  loop_status before all_ok s e = rw e

  pub check_idle :
      m.exception ≡ false → check_proc_exceptions re ask m ≡ check_loop re ask [] m.procinfos true m
  unfolding check_proc_exceptions
  check_idle idle = simp idle

  check_first :
      (s : String)
      → m.exception ≡ false
      → m.procinfos ≡ p ∷ after
      → ask p ≡ status s
      → check_proc_exceptions re ask m ≡ take_status re [] p after true s m
  check_first s idle at e =
      check_idle idle ∙ ap (λ l. check_loop re ask [] l true m) at ∙ loop_status [] true s e

-- Where the first process answers with a status, whichever it is, the outcome of the check and all that
-- it leaves are the same whatever the other processes would answer.
pub later_answers_unread :
    (re : Searches) (ask ask' : Procinfo → Answer) (p : Procinfo) (after : List Procinfo)
    (m : Monitor) (s : String)
    → m.exception ≡ false
    → m.procinfos ≡ p ∷ after
    → ask p ≡ status s
    → ask' p ≡ status s
    → check_proc_exceptions re ask m ≡ check_proc_exceptions re ask' m
later_answers_unread re ask ask' p after m s idle at e e' =
    check_first re ask p after m s idle at e ∙ sym (check_first re ask' p after m s idle at e')
