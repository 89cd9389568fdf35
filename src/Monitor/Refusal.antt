-- ===== src/Monitor/Refusal.antt =====
-- rc/control/daqinterface.py, `check_proc_exceptions`: refused connections over two checks.
use artdaq_daqinterface.Prelude.{
  String, ◌=ₛ◌ as ◌==◌, ◌≡◌, refl, ◌∙◌, ap, inl, inr, Bool, true, false, List, [], ◌∷◌, ◌++◌, isin,
  eq_refl, Bool-cases,
}
use artdaq_daqinterface.Procinfo.{Procinfo}
use artdaq_daqinterface.Requirements.{Searches}
use artdaq_daqinterface.Monitor.First.{check_idle}
use artdaq_daqinterface.Monitor.{
  Answer, status, timed_out, connection_refused, no_route, other_exception, Monitor, MonitorOutcome,
  repeated_refusal, take_status, note_refusal, by_answer, check_loop, check_proc_exceptions,
}

isin-append_left : (x : String) (xs ys : List String) → isin x xs ≡ true → isin x (xs ++ ys) ≡ true
unfolding isin
isin-append_left x [] ys h = cc
isin-append_left x (y ∷ xs) ys h = elim (Bool-cases (y == x)) [
  | inl e ↦ rw e
  | inr e ↦ rw e (isin-append_left x xs ys (rw e at h))
]

isin-snoc : (x : String) (xs : List String) → isin x (xs ++ x ∷ []) ≡ true
unfolding isin
isin-snoc x [] = rw eq_refl
isin-snoc x (y ∷ xs) = elim (Bool-cases (y == x)) [ inl e ↦ rw e | inr e ↦ rw e (isin-snoc x xs) ]

-- The process `p` is first in the list, is noted as refusing, and no exception is set.
pub record IsNoted (p : Procinfo) (m : Monitor) : Type 0 where
  pub rest : List Procinfo
  pub first : m.procinfos ≡ p ∷ rest
  pub noted : isin p.label m.procs_which_already_caused_connection_refused ≡ true
  pub idle : m.exception ≡ false

module _ (re : Searches) (ask : Procinfo → Answer) (p : Procinfo) where
  take_status-IsNoted :
      (before : List Procinfo) (q : Procinfo) (after : List Procinfo) (all_ok : Bool) (s : String)
      (m : Monitor)
      → IsNoted p m
      → IsNoted p (take_status re (p ∷ before) q after all_ok s m).0
  unfolding take_status
  take_status-IsNoted before q after all_ok s m n = elim (Bool-cases (s == "Error")) [
    | inl e ↦ rw e (record { rest = before ++ after; first = refl; noted = n.noted; idle = n.idle })
    | inr e ↦ rw e (record {
      rest = before ++ (record q { lastreturned = s; state = s }) ∷ after;
      first = refl;
      noted = n.noted;
      idle = n.idle;
    })
  ]

  by_answer-IsNoted :
      (a : Answer) (before : List Procinfo) (q : Procinfo) (after : List Procinfo) (all_ok : Bool)
      (m : Monitor) (go_on : Monitor → Monitor × MonitorOutcome)
      → ((m' : Monitor) → IsNoted p m' → IsNoted p (go_on m').0)
      → IsNoted p m
      → IsNoted p (by_answer re a (p ∷ before) q after all_ok m go_on).0
  unfolding by_answer note_refusal
  by_answer-IsNoted (status s) before q after all_ok m go_on keep n =
      take_status-IsNoted before q after all_ok s m n
  by_answer-IsNoted connection_refused before q after all_ok m go_on keep n =
      let seen = m.procs_which_already_caused_connection_refused in
      elim (Bool-cases (isin q.label seen)) [
        | inl h ↦ rw h n
        | inr h ↦ rw h (
            keep (note_refusal q m) (record {
              rest = n.rest;
              first = n.first;
              noted = isin-append_left p.label seen (q.label ∷ []) n.noted;
              idle = n.idle;
            }))
      ]
  by_answer-IsNoted no_route before q after all_ok m go_on keep n = n
  by_answer-IsNoted timed_out before q after all_ok m go_on keep n = keep m n
  by_answer-IsNoted other_exception before q after all_ok m go_on keep n = n

  check_loop-IsNoted :
      (before after : List Procinfo) (all_ok : Bool) (m : Monitor)
      → IsNoted p m
      → IsNoted p (check_loop re ask (p ∷ before) after all_ok m).0
  unfolding check_loop
  check_loop-IsNoted before [] all_ok m n = n
  check_loop-IsNoted before (q ∷ after) all_ok m n =
      by_answer-IsNoted (ask q) before q after all_ok m _
        (check_loop-IsNoted (before ++ q ∷ []) after false) n

  loop_refused :
      (after : List Procinfo) (m : Monitor) (all_ok : Bool)
      → ask p ≡ connection_refused
      → isin p.label m.procs_which_already_caused_connection_refused ≡ false
      → check_loop re ask [] (p ∷ after) all_ok m
        ≡ check_loop re ask (p ∷ []) after false (note_refusal p m)
  unfolding check_loop by_answer
  loop_refused after m all_ok e new = rw (e, new) refl

  refusal-IsNoted :
      (after : List Procinfo) (m : Monitor)
      → m.exception ≡ false
      → m.procinfos ≡ p ∷ after
      → IsNoted p (note_refusal p m)
  unfolding note_refusal
  refusal-IsNoted after m idle at = record {
    rest = after;
    first = at;
    noted = isin-snoc p.label m.procs_which_already_caused_connection_refused;
    idle = idle;
  }

  noted_raises :
      (again : Procinfo → Answer) (m : Monitor)
      → IsNoted p m
      → again p ≡ connection_refused
      → (check_proc_exceptions re again m).1 ≡ repeated_refusal
  unfolding check_proc_exceptions
  noted_raises again m n e =
      simp n.idle (ap (λ l. (check_loop re again [] l true m).1) n.first ∙ refuses n.rest m n.noted)
    where
      refuses :
          (after : List Procinfo) (m : Monitor)
          → isin p.label m.procs_which_already_caused_connection_refused ≡ true
          → (check_loop re again [] (p ∷ after) true m).1 ≡ repeated_refusal
      refuses after m h = unfold check_loop by_answer in rw (e, h)

  -- A first process that refuses the connection in two checks, one after the other, makes the second
  -- check raise the exception about it, whatever the others answered.
  pub second_refusal_raises :
      (again : Procinfo → Answer) (after : List Procinfo) (m : Monitor)
      → m.exception ≡ false
      → m.procinfos ≡ p ∷ after
      → ask p ≡ connection_refused
      → again p ≡ connection_refused
      → isin p.label m.procs_which_already_caused_connection_refused ≡ false
      → (check_proc_exceptions re again (check_proc_exceptions re ask m).0).1 ≡ repeated_refusal
  second_refusal_raises again after m idle at e e' new =
      noted_raises again (check_proc_exceptions re ask m).0 noted e'
    where
      first_check :
          check_proc_exceptions re ask m ≡ check_loop re ask (p ∷ []) after false (note_refusal p m)
      first_check =
          check_idle re ask p after m idle
          ∙ ap (λ l. check_loop re ask [] l true m) at
          ∙ loop_refused after m true e new

      noted : IsNoted p (check_proc_exceptions re ask m).0
      noted =
          rw first_check
            (check_loop-IsNoted [] after false (note_refusal p m) (refusal-IsNoted after m idle at))
