-- ===== src/Recover/Stopped.antt =====
-- rc/control/daqinterface.py: a recovery and a termination end in the state "stopped".
use artdaq_daqinterface.Prelude.{
  String, ◌≡◌, refl, ap, ◌∙◌, Bool, true, false, ◌&&◌, List, [], if◌then◌else◌, if_both, and-true,
  inl, inr, ◌⊎◌, eq_refl,
}
use artdaq_daqinterface.Procinfo.{Procinfo}
use artdaq_daqinterface.Component.{Flags, Component, complete_state_change}
use artdaq_daqinterface.Command.{Reply}
use artdaq_daqinterface.Recover.Raises.{SomeRaises, stop_names-SomeRaises}
use artdaq_daqinterface.Recover.{
  PidSearch, process_types, Query, Recovery, no_flags, recovered, clear_flags, skips, do_recover,
  alert_and_recover, shut_all, do_terminate, stop_names,
}

-- The state is "stopped", no recovery is under way, the component's name and arguments are those of
-- `before`, and its flags are these.
pub record IsStopped {A : Type 0} (before : Component A) (flags : Flags) (d : Recovery A)
    : Type 0 where
  pub component : d.component ≡ record before { state = "stopped"; flags = flags }
  pub over : d.in_recovery ≡ false

module _ {A : Type 0} (find_pid : Procinfo → PidSearch) (ask : Procinfo → Query → Reply) where
  recovered-IsStopped :
      (d : Recovery A) → IsStopped d.component d.component.flags (recovered find_pid ask d)
  unfolding recovered complete_state_change
  recovered-IsStopped d = record { component = rw eq_refl; over = refl }

  -- The flags after a recovery: a skipped one leaves them.
  abbrev pub flags_after : Recovery A → Flags
  flags_after d = if skips find_pid ask d then d.component.flags else no_flags

module _ {A : Type 0} (find_pid : Procinfo → PidSearch) (ask : Procinfo → Query → Reply)
    (kill_procs : List Procinfo → List Procinfo × Bool) where
  -- How a recovery that began with these fields ends: in the state "stopped", or by an exception,
  -- which leaves the component as it was, with a recovery under way.
  abbrev pub IsRecovered : Component A → Flags → Recovery A × Bool → Type 0
  IsRecovered before flags (d, false) = IsStopped before flags d
  IsRecovered before flags (d, true) =
      (d.component ≡ before) × (d.in_recovery ≡ true) × SomeRaises find_pid

  -- A recovery, whatever the processes answer, ends in the state "stopped" with no recovery under
  -- way, and with no flag set, but where it is skipped: then the flags stay as they were. Or the
  -- search for the number of a process raises an exception, which leaves the recovery under way and
  -- the component with its state and flags as it was.
  pub do_recover-IsRecovered :
      (d : Recovery A)
      → IsRecovered d.component (flags_after find_pid ask d) (do_recover find_pid ask kill_procs d)
  unfolding do_recover
  do_recover-IsRecovered d =
      let stopped = stop_names find_pid ask process_types d.procinfos in
      let left : Recovery A = record d { in_recovery = true; procinfos = stopped.0 } in
      let wound_down : Recovery A =
        if d.manage_processes then record d { procinfos = (kill_procs stopped.0).0 } else d in
      by_case (skips find_pid ask d) (d.manage_processes && stopped.1) wound_down left
        (λ raised.
          stop_names-SomeRaises find_pid ask process_types d.procinfos
            (and-true d.manage_processes stopped.1 raised).1)
        refl refl
        (if_both (λ (x : Recovery A). x.component ≡ d.component) d.manage_processes refl refl)
    where
      settled : Component A → Component A
      settled c = record c { state = "stopped"; flags = no_flags }

      cleared :
          (x : Recovery A)
          → x.component ≡ d.component
          → IsStopped d.component no_flags (recovered find_pid ask (clear_flags find_pid ask x))
      cleared x e =
          let r = recovered-IsStopped find_pid ask (clear_flags find_pid ask x) in
          record { component = r.component ∙ ap (λ (c : Component A). settled c) e; over = r.over }

      by_case :
          (b raised : Bool) (x left : Recovery A)
          → (raised ≡ true → SomeRaises find_pid)
          → left.component ≡ d.component
          → left.in_recovery ≡ true
          → x.component ≡ d.component
          → IsRecovered d.component (if b then d.component.flags else no_flags) (
              if b
              then (recovered find_pid ask d, false)
              else (if raised
                  then (left, true)
                  else (recovered find_pid ask (clear_flags find_pid ask x), false)))
      by_case true raised x left why same under e = recovered-IsStopped find_pid ask d
      by_case false true x left why same under e = (same, under, why refl)
      by_case false false x left why same under e = cleared x e

  pub alert_and_recover-IsRecovered :
      (extrainfo : String) (d : Recovery A)
      → IsRecovered d.component
          (flags_after find_pid ask d)
          (alert_and_recover find_pid ask kill_procs extrainfo d)
  unfolding alert_and_recover
  alert_and_recover-IsRecovered extrainfo d =
      let d' : Recovery A = record d { last_critical_error = extrainfo } in
      after (do_recover find_pid ask kill_procs d') (do_recover-IsRecovered d')
    where
      after :
          (x : Recovery A × Bool)
          → IsRecovered d.component (flags_after find_pid ask d) x
          → IsRecovered d.component
              (flags_after find_pid ask d)
              (if x.1 then x.0 else record (x.0) { transition_process_errors = [] }, x.1)
      after (x, false) r = record { component = r.component; over = r.over }
      after (x, true) r = r

  -- A termination ends in the state "stopped" whether it goes through, a process raises an exception
  -- or the killing of processes does, but where the recovery then is left by an exception.
  do_terminate_stops :
      (d : Recovery A)
      → let (d', raised) = do_terminate find_pid ask kill_procs d in
        (d'.component.state ≡ "stopped") ⊎ SomeRaises find_pid
  unfolding do_terminate complete_state_change
  do_terminate_stops d =
      let Ends =
        λ (x : Recovery A × Bool). (x.0.component.state ≡ "stopped") ⊎ SomeRaises find_pid in
      let shut = shut_all find_pid ask d.procinfos in
      let d' : Recovery A = if d.manage_processes then record d { procinfos = shut.0 } else d in
      let d'' : Recovery A =
        if d.manage_processes then record d { procinfos = (kill_procs shut.0).0 } else d in
      if_both Ends (d.manage_processes && shut.1)
        (recovers "An exception was thrown during the terminate transition" d')
        (if_both Ends (d.manage_processes && (kill_procs shut.0).1)
          (recovers "An exception was thrown within kill_procs()" d'') (inl (rw eq_refl refl)))
    where
      either :
          (x : Recovery A × Bool) (c : Component A) (flags : Flags)
          → IsRecovered c flags x
          → (x.0.component.state ≡ "stopped") ⊎ SomeRaises find_pid
      either (x, false) c flags r = inl (ap (λ y. y.state) r.component)
      either (x, true) c flags r = inr r.2

      recovers :
          (extrainfo : String) (x : Recovery A)
          → ((alert_and_recover find_pid ask kill_procs extrainfo x).0.component.state ≡ "stopped")
            ⊎ SomeRaises find_pid
      recovers extrainfo x =
          either (alert_and_recover find_pid ask kill_procs extrainfo x) x.component
            (flags_after find_pid ask x) (alert_and_recover-IsRecovered extrainfo x)
