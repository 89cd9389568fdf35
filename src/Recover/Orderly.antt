-- ===== src/Recover/Orderly.antt =====
-- rc/control/daqinterface.py, `attempted_stop`: which commands a process is sent in a recovery.
use artdaq_daqinterface.Prelude.{
  String, ◌=ₛ◌, ◌≡◌, refl, true, ◌&&◌, [], ◌∷◌, ◌++◌, if_cases, if_both, and-true, eq_iff,
}
use artdaq_daqinterface.Procinfo.{Procinfo}
use artdaq_daqinterface.Transition.{is_fine}
use artdaq_daqinterface.Command.{
  Command, stop_command, shutdown_command, target_states, verbing_to_states, Reply, replied, raised,
}
use artdaq_daqinterface.Recover.{
  PidSearch, has_pid, Query, status, status_after_stop, command_call, Exchange, Attempt, note_state,
  ask_state, note_reply, send_recover_command, then_if, stop_running, wind_down, attempted_stop,
}

-- The exchanges with a process that a recovery may have: nothing; a status; for a process that says
-- it is running, a stop and, where it succeeds, a second status; and behind a status "Ready", a
-- shutdown.
pub data IsOrderly : Exchange → Type 0 where
  silent : IsOrderly []
  asked : (r : Reply) → IsOrderly ((status, r) ∷ [])
  stopped :
      (r : Reply) → IsOrderly ((status, replied "Running") ∷ (command_call stop_command, r) ∷ [])
  asked_again :
      (s : String) (r : Reply)
      → is_fine "Ready" s ≡ true
      → IsOrderly (
          (status, replied "Running")
          ∷ (command_call stop_command, replied s)
          ∷ (status_after_stop, r)
          ∷ [])
  shut :
      (r : Reply) → IsOrderly ((status, replied "Ready") ∷ (command_call shutdown_command, r) ∷ [])
  stopped_and_shut :
      (s : String) (r : Reply)
      → is_fine "Ready" s ≡ true
      → IsOrderly (
          (status, replied "Running")
          ∷ (command_call stop_command, replied s)
          ∷ (status_after_stop, replied "Ready")
          ∷ (command_call shutdown_command, r)
          ∷ [])

module _ (find_pid : Procinfo → PidSearch) (ask : Procinfo → Query → Reply) where
  note_reply-exchange :
      (c : Command) (a : Attempt) (r : Reply)
      → (note_reply find_pid ask c a r).exchange ≡ a.exchange ++ (command_call c, r) ∷ []
  unfolding note_reply
  note_reply-exchange c a raised = refl
  note_reply-exchange c a (replied s) =
      if_both (λ (x : Attempt). x.exchange ≡ a.exchange ++ (command_call c, replied s) ∷ [])
        (is_fine (target_states c) s) refl refl

  send_recover_command-exchange :
      (c : Command) (a : Attempt)
      → (r : Reply) × ((send_recover_command find_pid ask c a).exchange
          ≡ a.exchange ++ (command_call c, r) ∷ [])
  unfolding send_recover_command
  send_recover_command-exchange c a =
      let p : Procinfo = record (a.procinfo) { state = verbing_to_states c } in
      let a' : Attempt = record a { procinfo = p } in
      (ask p (command_call c), note_reply-exchange c a' (ask p (command_call c)))

  -- The last part: a shutdown, for a process in state "Ready".
  abbrev shut_part : Attempt → Attempt
  shut_part a =
      then_if find_pid ask (a.goes_on && (a.procinfo.state =ₛ "Ready"))
        (send_recover_command find_pid ask shutdown_command) a

  shut_part-IsOrderly :
      (a : Attempt)
      → IsOrderly a.exchange
      → (a.procinfo.state ≡ "Ready"
          → (r : Reply) → IsOrderly (a.exchange ++ (command_call shutdown_command, r) ∷ []))
      → IsOrderly (shut_part a).exchange
  shut_part-IsOrderly a plain ready =
      if_cases (λ (x : Attempt). IsOrderly x.exchange) (a.goes_on && (a.procinfo.state =ₛ "Ready"))
        (λ h.
          let (r, e) = send_recover_command-exchange shutdown_command a in
          let is_ready = (eq_iff a.procinfo.state "Ready").0 (and-true a.goes_on _ h).1 in
          rw e (ready is_ready r))
        (λ h. plain)

  after_status : (p : Procinfo) (s : String) → Attempt
  after_status p s = record {
    procinfo = record p { lastreturned = s; state = s };
    exchange = (status, replied s) ∷ [];
    goes_on = true;
  }

  -- Behind a stop that succeeded: the second status and the last part.
  second_status-IsOrderly :
      (p : Procinfo) (t : String) (r : Reply)
      → is_fine "Ready" t ≡ true
      → IsOrderly
          (shut_part (
            note_state find_pid ask status_after_stop
              (record {
                procinfo = p;
                exchange =
                    (status, replied "Running") ∷ (command_call stop_command, replied t) ∷ [];
                goes_on = true;
              })
              r)).exchange
  unfolding note_state
  second_status-IsOrderly p t raised fine = asked_again t raised fine
  second_status-IsOrderly p t (replied s) fine =
      shut_part-IsOrderly
        (record {
          procinfo = record p { lastreturned = s; state = s };
          exchange =
              (status, replied "Running")
              ∷ (command_call stop_command, replied t)
              ∷ (status_after_stop, replied s)
              ∷ [];
          goes_on = true;
        })
        (asked_again t (replied s) fine) (λ e r. rw e (stopped_and_shut t r fine))

  -- Behind a stop: the second status, where it succeeded, and the last part.
  stopped-IsOrderly :
      (p : Procinfo) (r : Reply)
      → let a =
          note_reply find_pid ask stop_command
            (record { procinfo = p; exchange = (status, replied "Running") ∷ []; goes_on = true })
            r in
        IsOrderly
          (shut_part
            (then_if find_pid ask a.goes_on (ask_state find_pid ask status_after_stop) a)).exchange
  unfolding note_reply ask_state
  stopped-IsOrderly p raised = stopped raised
  stopped-IsOrderly p (replied t) =
      if_cases
        (λ (a : Attempt).
          IsOrderly
            (shut_part (
              then_if find_pid ask a.goes_on (ask_state find_pid ask status_after_stop)
                a)).exchange)
        (is_fine "Ready" t)
        (λ fine.
          let p' : Procinfo = record p { lastreturned = t; state = "Ready" } in
          second_status-IsOrderly p' t (ask p' status_after_stop) fine)
        (λ failed. stopped (replied t))

  wind_down-IsOrderly :
      (p : Procinfo) (s : String) → IsOrderly (wind_down find_pid ask (after_status p s)).exchange
  unfolding wind_down after_status stop_running send_recover_command
  wind_down-IsOrderly p s =
      if_cases (λ (a : Attempt). IsOrderly (shut_part a).exchange) (s =ₛ "Running")
        (λ h. rw ((eq_iff s "Running").0 h) (
          let p' : Procinfo = record p { lastreturned = "Running"; state = "Stopping" } in
          stopped-IsOrderly p' (ask p' (command_call stop_command))))
        (λ h. shut_part-IsOrderly (after_status p s) (asked (replied s)) (λ e r. rw e (shut r)))

  -- A process is sent a stop only behind a status "Running", and a shutdown only behind a status
  -- "Ready", the second one where it was stopped; a failed reply ends the exchange.
  pub attempted_stop-IsOrderly : (p : Procinfo) → IsOrderly (attempted_stop find_pid ask p).exchange
  unfolding attempted_stop ask_state note_state
  attempted_stop-IsOrderly p =
      if_both (λ (a : Attempt). IsOrderly a.exchange) (has_pid (find_pid p))
        (by_status (ask p status)) silent
    where
      by_status :
          (r : Reply)
          → let a =
              note_state find_pid ask status
                (record { procinfo = p; exchange = []; goes_on = true })
                r in
            IsOrderly (then_if find_pid ask a.goes_on (wind_down find_pid ask) a).exchange
      by_status raised = asked raised
      by_status (replied s) = unfold after_status in wind_down-IsOrderly p s
