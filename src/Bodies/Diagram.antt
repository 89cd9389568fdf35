-- ===== src/Bodies/Diagram.antt =====
-- rc/control/daqinterface.py: in which states the bodies of the transitions end.
pub mod Running
pub mod Booting
pub mod Configuring
pub mod Over
use artdaq_daqinterface.Prelude.{
  String, ◌≡◌, refl, ap, ◌∙◌, ◌⊎◌, inl, inr, Bool, true, false, Option, none, some, List, eq_refl,
  if◌then◌else◌, if_both, option_both,
}
use artdaq_daqinterface.Component.{
  Flags, Component, complete_state_change, dict_state_from, dict_state_to, get_or_self,
}
use artdaq_daqinterface.Command.{
  Command, init_command, start_command, stop_command, CommandOutcome, completed, never_ends,
  key_error, exception_thrown, not_achieved, Interface, do_command, subsystems_in_order,
}
use artdaq_daqinterface.Command.States.{completed_state, Leaves, do_command-Leaves, do_command_ends}
use artdaq_daqinterface.Recover.{Recovery, alert_and_recover}
use artdaq_daqinterface.Recover.Stopped.{IsRecovered, flags_after, alert_and_recover-IsRecovered}
use artdaq_daqinterface.Recover.Raises.{SomeRaises}
use artdaq_daqinterface.Processes.{readjust_process_priorities}
use artdaq_daqinterface.Bodies.Launching.{wait_for_status}
use artdaq_daqinterface.Bodies.Steps.{Meets, AllMeet, run_steps-Meets}
use artdaq_daqinterface.Bodies.{
  Daqinterface, Progress, goes_on, returned, raised_out, Endless, no_order, no_status, no_fuel,
  endless, run_steps, may_raise, complete_as, interface, with_component, Servers, recover_from,
  after_recovery, recover_and_return, recover_and_go_on, or_recover, readjust, after_command,
  command_or_recover,
}

-- Why a loop does not end: the subsystems have no order, or a server never answers.
abbrev pub IsStuck : Endless → Type 0
IsStuck (no_order g) = subsystems_in_order g ≡ none
IsStuck (no_status status_of ps) = wait_for_status status_of ps ≡ none
IsStuck no_fuel = ⊥

module _ {A : Type 0} where
  -- The state, with the name and the arguments of `before`.
  abbrev pub At : Component A → String → Daqinterface A → Type 0
  At before s d =
      (d.recovery.component.state ≡ s)
      × (d.recovery.component.name ≡ before.name)
      × (d.recovery.component.run_params ≡ before.run_params)

  -- In the course of a body: the state is as at the beginning, or a recovery has been run.
  abbrev pub Open : Component A → Daqinterface A → Type 0
  Open before d = At before before.state d ⊎ At before "stopped" d

  -- At the end: the transition's target, "stopped", or the state from before the request.
  abbrev pub Settled : Component A → String → Daqinterface A → Type 0
  Settled before target d =
      At before target d
      ⊎ (At before "stopped" d ⊎ At before (get_or_self dict_state_from before.state) d)

  -- A recovery in the course of a body: it stops, or the search for a process raises an exception.
  abbrev pub Recovers : Component A → Servers → Daqinterface A × Bool → Type 0
  Recovers before servers (d, false) = At before "stopped" d
  Recovers before servers (d, true) = Open before d × SomeRaises servers.find_pid

  abbrev pub Ends : Component A → String → Progress A → Type 0
  Ends before target = Meets (Open before) (Settled before target) (Open before) IsStuck

  -- A sequence of statements that each keep to this does.
  pub run_steps-Ends :
      (before : Component A) (target : String) (steps : List (Daqinterface A → Progress A))
      (d : Daqinterface A)
      → AllMeet (Open before) (Settled before target) (Open before) IsStuck steps
      → Open before d
      → Ends before target (run_steps steps d)
  run_steps-Ends before target steps d all h =
      run_steps-Meets (Open before) (Settled before target) (Open before) IsStuck steps d all h

  module _ (before : Component A) (target : String) where
    pub may_raise-Ends :
        (b : Bool) (d : Daqinterface A) → Open before d → Ends before target (may_raise b d)
    may_raise-Ends true d h = h
    may_raise-Ends false d h = h

    module _ (servers : Servers) where
      pub recover-Recovers :
          (extrainfo : String) (d : Daqinterface A)
          → Open before d
          → Recovers before servers (recover_from servers extrainfo d)
      unfolding recover_from
      recover-Recovers extrainfo d h =
          recovers (flags_after servers.find_pid servers.ask d.recovery)
            (alert_and_recover servers.find_pid servers.ask servers.kill_procs extrainfo d.recovery)
            (alert_and_recover-IsRecovered servers.find_pid servers.ask servers.kill_procs extrainfo
              d.recovery)
        where
          from :
              {s : String} {c : Component A} {f : Flags}
              → c ≡ record (d.recovery.component) { state = "stopped"; flags = f }
              → At before s d
              → (c.state ≡ "stopped") × (c.name ≡ before.name) × (c.run_params ≡ before.run_params)
          from e at =
              (ap (λ x. x.state) e, ap (λ x. x.name) e ∙ at.1, ap (λ x. x.run_params) e ∙ at.2)

          same :
              {s : String} {c : Component A}
              → c ≡ d.recovery.component
              → At before s d
              → (c.state ≡ s) × (c.name ≡ before.name) × (c.run_params ≡ before.run_params)
          same e at = (
            ap (λ x. x.state) e ∙ at.0,
            ap (λ x. x.name) e ∙ at.1,
            ap (λ x. x.run_params) e ∙ at.2,
          )

          recovers :
              (f : Flags) (x : Recovery A × Bool)
              → IsRecovered servers.find_pid servers.ask servers.kill_procs d.recovery.component f x
              → Recovers before servers (record d { recovery = x.0 }, x.1)
          recovers f (r, false) e = elim h [
            | inl at ↦ from e.component at
            | inr at ↦ from e.component at
          ]
          recovers f (r, true) e =
              (elim h [ inl at ↦ inl (same e.0 at) | inr at ↦ inr (same e.0 at) ], e.2)

      after_recovery-Ends :
          (next : Daqinterface A → Progress A)
          → ((d : Daqinterface A) → At before "stopped" d → Ends before target (next d))
          → (x : Daqinterface A × Bool) → Recovers before servers x
          → Ends before target (after_recovery servers next x)
      after_recovery-Ends next later (d, false) h = later d h
      after_recovery-Ends next later (d, true) h = h.0

      -- A recovery behind which the body returns, or goes on.
      pub recover_and_return-Ends :
          (extrainfo : String) (d : Daqinterface A)
          → Open before d
          → Ends before target (recover_and_return servers extrainfo d)
      recover_and_return-Ends extrainfo d h =
          after_recovery-Ends (λ d'. returned d') (λ d' at. inr (inl at))
            (recover_from servers extrainfo d) (recover-Recovers extrainfo d h)

      pub recover_and_go_on-Ends :
          (extrainfo : String) (d : Daqinterface A)
          → Open before d
          → Ends before target (recover_and_go_on servers extrainfo d)
      recover_and_go_on-Ends extrainfo d h =
          after_recovery-Ends (λ d'. goes_on d') (λ d' at. inr at)
            (recover_from servers extrainfo d) (recover-Recovers extrainfo d h)

      pub or_recover-Ends :
          (b : Bool) (extrainfo : String) (d : Daqinterface A)
          → Open before d
          → Ends before target (or_recover servers b extrainfo d)
      or_recover-Ends true extrainfo d h = recover_and_return-Ends extrainfo d h
      or_recover-Ends false extrainfo d h = h

      pub readjust-Ends :
          (priority_list : Option (List String)) (d : Daqinterface A)
          → Open before d
          → Ends before target (readjust servers priority_list d)
      unfolding readjust
      readjust-Ends priority_list d h =
          option_both (Ends before target)
            (readjust_process_priorities servers.search priority_list d.recovery.procinfos).1 h
            (λ label. h)

      -- A component that a command left alone, as the commands of these bodies do.
      kept-Open :
          (d : Daqinterface A) (i : Interface A)
          → i.component ≡ d.recovery.component
          → Open before d
          → Open before (with_component d i)
      kept-Open d i e (inl at) =
          inl
            (ap (λ x. x.state) e ∙ at.0, ap (λ x. x.name) e ∙ at.1, ap (λ x. x.run_params) e ∙ at.2)
      kept-Open d i e (inr at) =
          inr
            (ap (λ x. x.state) e ∙ at.0, ap (λ x. x.name) e ∙ at.1, ap (λ x. x.run_params) e ∙ at.2)

      after_command-Ends :
          (c : Command) (extrainfo : String) (d : Daqinterface A) (o : Interface A × CommandOutcome)
          → ((s : String) → completed_state c s ≡ s)
          → Leaves c d.recovery.component o
          → (o.1 ≡ never_ends → subsystems_in_order d.subsystems ≡ none)
          → Open before d
          → Ends before target (after_command servers extrainfo d o)
      after_command-Ends c extrainfo d (i, completed) same left why h =
          kept-Open d i (left ∙ ap (λ s. with_state s) (same d.recovery.component.state)) h
        where
          with_state : String → Component A
          with_state s = record (d.recovery.component) { state = s }
      after_command-Ends c extrainfo d (i, never_ends) same left why h = why refl
      after_command-Ends c extrainfo d (i, key_error) same left why h =
          recover_and_return-Ends extrainfo (with_component d i) (kept-Open d i left h)
      after_command-Ends c extrainfo d (i, exception_thrown) same left why h =
          recover_and_return-Ends extrainfo (with_component d i) (kept-Open d i left h)
      after_command-Ends c extrainfo d (i, not_achieved) same left why h =
          recover_and_return-Ends extrainfo (with_component d i) (kept-Open d i left h)

      pub command_or_recover-Ends :
          (c : Command) (extrainfo : String) (d : Daqinterface A)
          → ((s : String) → completed_state c s ≡ s)
          → Open before d
          → Ends before target (command_or_recover servers c extrainfo d)
      unfolding command_or_recover
      command_or_recover-Ends c extrainfo d same h =
          after_command-Ends c extrainfo d
            (do_command servers.call servers.reads servers.tmp_run_record c (interface d)) same
            (do_command-Leaves servers.call servers.reads servers.tmp_run_record c (interface d))
            (do_command_ends servers.call servers.reads servers.tmp_run_record c (interface d)) h

  -- The end of a body that goes through.
  pub complete_as-At :
      (before : Component A) (requested : String) (d : Daqinterface A)
      → Open before d
      → At before (get_or_self dict_state_to requested) (complete_as requested d)
  unfolding complete_as complete_state_change
  complete_as-At before requested d (inl at) = rw eq_refl (refl, at.1, at.2)
  complete_as-At before requested d (inr at) = rw eq_refl (refl, at.1, at.2)
