-- ===== src/Recover/Rounds.antt =====
-- rc/control/daqinterface.py: `runner` with `alert_and_recover` as what it calls on an exception.
use artdaq_daqinterface.Prelude.{String, ◌≡◌, refl, ap, Bool, true, false, if◌then◌else◌, List}
use artdaq_daqinterface.Procinfo.{Procinfo}
use artdaq_daqinterface.Command.{Reply}
use artdaq_daqinterface.Runner.{
  Round, raise_exception, Runner, next_round, attempt, after_attempt, runner,
}
use artdaq_daqinterface.Recover.{PidSearch, Query, Recovery, no_flags, skips, alert_and_recover}
use artdaq_daqinterface.Recover.Raises.{SomeRaises}
use artdaq_daqinterface.Recover.Stopped.{IsRecovered, flags_after, alert_and_recover-IsRecovered}

module _ {A : Type 0} (find_pid : Procinfo → PidSearch) (ask : Procinfo → Query → Reply)
    (kill_procs : List Procinfo → List Procinfo × Bool) where
  -- The fields of a runner stand for those of the component.
  abbrev pub with_runner : Runner (Recovery A) → Recovery A
  with_runner r = record (r.others) {
    component = record (r.others.component) { state = r.state; flags = r.flags };
    in_recovery = r.in_recovery;
    manage_processes = r.manage_processes;
  }

  -- `alert_and_recover` on a runner's fields.
  unfoldable pub recover_runner : String → Runner (Recovery A) → Runner (Recovery A) × Bool
  recover_runner extrainfo r =
      let (d, raised) = alert_and_recover find_pid ask kill_procs extrainfo (with_runner r) in
      (
        record r {
          in_recovery = d.in_recovery;
          state = d.component.state;
          flags = d.component.flags;
          others = d;
        },
        raised,
      )

  -- How a round that found the exception flag set ends: with the flag reset, or, where the recovery is
  -- left by an exception, with the flag, the state and the requests as they were.
  abbrev pub IsAnswered : Runner (Recovery A) → Runner (Recovery A) × Bool → Type 0
  IsAnswered r (r', false) =
      (r'.exception ≡ false)
      × (r'.in_recovery ≡ false)
      × (r'.state ≡ "stopped")
      × (r'.flags ≡ (if skips find_pid ask r.others then r.flags else no_flags))
  IsAnswered r (r', true) =
      (r'.exception ≡ true)
      × (r'.in_recovery ≡ true)
      × (r'.state ≡ r.state)
      × (r'.flags ≡ r.flags)
      × SomeRaises find_pid

  after_attempt-IsAnswered :
      (call : Round → Runner (Recovery A) → Runner (Recovery A) × Bool) (extrainfo : String)
      (r : Runner (Recovery A))
      → r.exception ≡ true
      → IsAnswered r (after_attempt call (recover_runner extrainfo) (r, true))
  unfolding after_attempt recover_runner
  after_attempt-IsAnswered call extrainfo r set =
      let d = with_runner (record r { in_recovery = true }) in
      answered (alert_and_recover find_pid ask kill_procs extrainfo d)
        (alert_and_recover-IsRecovered find_pid ask kill_procs extrainfo d)
    where
      after : Recovery A × Bool → Runner (Recovery A) × Bool
      after (d, raised) =
          let r' : Runner (Recovery A) = record r {
            in_recovery = d.in_recovery;
            state = d.component.state;
            flags = d.component.flags;
            others = d;
          } in
          (if raised then r' else record r' { in_recovery = false; exception = false }, raised)

      answered :
          (x : Recovery A × Bool)
          → IsRecovered find_pid ask kill_procs
              (with_runner r).component
              (flags_after find_pid ask (with_runner r))
              x
          → IsAnswered r (after x)
      answered (d, false) h =
          (refl, refl, ap (λ c. c.state) h.component, ap (λ c. c.flags) h.component)
      answered (d, true) (same, under, why) =
          (set, under, ap (λ c. c.state) same, ap (λ c. c.flags) same, why)

  -- A round that finds the exception flag set ends with the flag reset, no recovery under way and the
  -- state "stopped"; no request is left but where the recovery was skipped, which keeps them. Or the
  -- search for the number of a process raises an exception in the recovery, which leaves the round: the
  -- exception flag, the state and the requests are as before, with a recovery under way.
  pub exception_round_stops :
      (call : Round → Runner (Recovery A) → Runner (Recovery A) × Bool) (extrainfo : String)
      (r : Runner (Recovery A))
      → r.exception ≡ true
      → IsAnswered r (runner call (recover_runner extrainfo) r)
  unfolding runner attempt
  exception_round_stops call extrainfo r set =
      rw (first_choice set) (after_attempt-IsAnswered call extrainfo r set)
    where
      first_choice : r.exception ≡ true → next_round r ≡ (raise_exception, r.flags)
      first_choice e = unfold next_round in simp e refl
