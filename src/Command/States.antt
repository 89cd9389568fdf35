-- ===== src/Command/States.antt =====
-- rc/control/daqinterface.py, `do_command`: the state that a transition ends in.
use artdaq_daqinterface.Prelude.{
  ℕ, String, ◌≡◌, ◌≢◌, refl, inl, inr, true, false, not, none, [], lookup, occurs, Option-cases,
  eq_refl, if_both, or-true,
}
use Prim.Native.String as Text
use artdaq_daqinterface.Procinfo.{Procinfo}
use artdaq_daqinterface.Component.{Component, complete_state_change, is_refused, dict_state_from}
use artdaq_daqinterface.Transition.{Checked, check_proc_transition}
use artdaq_daqinterface.Command.{
  Command, pause_command, resume_command, shutdown_command, target_states, Call, Reply, Sending,
  CommandOutcome, completed, never_ends, Interface, all_sent, complete, after_check, after_sending,
  subsystems_in_order, in_direction, send_subsystems, do_command,
}

-- The states that the commands complete; those to configure, to start and to stop leave this to
-- their callers.
abbrev pub completed_state : Command → String → String
completed_state pause_command s = "paused"
completed_state resume_command s = "running"
completed_state shutdown_command s = ""
completed_state c s = s

module _ {A : Type 0} where
  complete_component :
      (c : Command) (d : Interface A)
      → (complete c d).component
        ≡ record (d.component) { state = completed_state c d.component.state }
  unfolding complete complete_state_change
  complete_component pause_command d = rw eq_refl
  complete_component resume_command d = rw eq_refl
  complete_component shutdown_command d = rw eq_refl
  complete_component c d = refl

  -- What is claimed of an outcome: completed, the state is the command's; else it is left alone.
  abbrev pub Leaves : Command → Component A → Interface A × CommandOutcome → Type 0
  Leaves c before (d, completed) =
      d.component ≡ record before { state = completed_state c before.state }
  Leaves c before (d, outcome) = d.component ≡ before

  after_check-Leaves :
      (c : Command) (d : Interface A) (checked : Checked)
      → Leaves c d.component (after_check c d checked)
  unfolding after_check
  after_check-Leaves c d checked = if_both (Leaves c d.component) checked.raised refl (
      complete_component c (record d {
        procinfos = checked.procinfos;
        transition_process_errors = checked.transition_process_errors;
      }))

  module _ (call : Procinfo → Call → Reply) (reads : Procinfo → ℕ → String)
      (tmp_run_record : String) (c : Command) where
    after_sending-Leaves :
        (d : Interface A) (s : Sending)
        → Leaves c d.component (after_sending call reads tmp_run_record c d s)
    unfolding after_sending
    after_sending-Leaves d s =
        let sent : Interface A = record d { procinfos = s.procinfos; exception = s.exception } in
        let checked =
          check_proc_transition reads (target_states c) s.procinfos d.transition_process_errors in
        let P = Leaves c d.component in
        if_both P s.key_error refl (
          if_both P s.exception refl (
            if_both P (not (all_sent s.sent s.procinfos)) refl (after_check-Leaves c sent checked)))

    -- A transition that completes leaves the state "paused" for Pause, "running" for Resume and the
    -- empty text for Shutdown, and the component as it was for the other commands; one that does not
    -- complete leaves the component as it was.
    pub do_command-Leaves :
        (d : Interface A) → Leaves c d.component (do_command call reads tmp_run_record c d)
    unfolding do_command
    do_command-Leaves d = elim (Option-cases (subsystems_in_order d.subsystems)) [
      | inl nothing ↦ rw (nothing, do_command) refl
      | inr (order, found) ↦
          rw (found, do_command)
            (after_sending-Leaves (record d { transition_process_errors = [] })
              (send_subsystems call tmp_run_record c (in_direction c order) (record {
                procinfos = d.procinfos;
                exception = d.exception;
                key_error = false;
                sent = [];
              })))
    ]

module _ {A : Type 0} (call : Procinfo → Call → Reply) (reads : Procinfo → ℕ → String)
    (tmp_run_record : String) (c : Command) where
  after_sending_ends :
      (d : Interface A) (s : Sending)
      → (after_sending call reads tmp_run_record c d s).1 ≢ never_ends
  unfolding after_sending after_check
  after_sending_ends d s =
      let Q = λ (o : Interface A × CommandOutcome). o.1 ≢ never_ends in
      if_both Q s.key_error (λ e. cc)
        (if_both Q s.exception (λ e. cc)
          (if_both Q (not (all_sent s.sent s.procinfos)) (λ e. cc)
            (if_both Q
              (check_proc_transition reads (target_states c) s.procinfos
                d.transition_process_errors).raised
              (λ e. cc) (λ e. cc))))

  -- A transition ends but where the subsystems have no order.
  pub do_command_ends :
      (d : Interface A)
      → (do_command call reads tmp_run_record c d).1 ≡ never_ends
      → subsystems_in_order d.subsystems ≡ none
  unfolding do_command
  do_command_ends d h = elim (Option-cases (subsystems_in_order d.subsystems)) [
    | inl nothing ↦ nothing
    | inr (order, found) ↦ absurd (
        after_sending_ends (record d { transition_process_errors = [] })
          (send_subsystems call tmp_run_record c (in_direction c order) (record {
            procinfos = d.procinfos;
            exception = d.exception;
            key_error = false;
            sent = [];
          }))
          (rw (found, do_command) at h))
  ]

occurs-empty : (s : String) → occurs "" s ≡ true
occurs-empty Text.String.[] = refl
occurs-empty (Text.String.◌∷◌ c s) = rw (occurs-empty s) (or-true _)

-- In the empty state, which a completed Shutdown leaves, no request of run control is refused.
empty_state_accepts : (requested : String) → is_refused requested "" ≡ false
unfolding is_refused
empty_state_accepts requested = elim (Option-cases (lookup requested dict_state_from)) [
  | inl nothing ↦ rw (nothing, is_refused) refl
  | inr (from, found) ↦ rw (found, is_refused) (rw (occurs-empty from) refl)
]
