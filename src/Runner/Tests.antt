-- ===== src/Runner/Tests.antt =====
-- Rounds of a small runner, for rc/control/daqinterface.py.
use artdaq_daqinterface.Prelude.{ℕ, ◌+◌, ◌≡◌, refl, ◌⊎◌, inl, inr, Bool, true, false, [], ◌∷◌}
use artdaq_daqinterface.Component.{Flags}
use artdaq_daqinterface.Runner.{
  do_boot, do_config, do_recover, do_start_running, do_stop_running, do_terminate, do_enable,
  do_disable, do_trace_get, do_trace_set, do_command, Round, serve, check_processes,
  raise_exception, idle, Runner, next_round, runner,
}
use artdaq_daqinterface.Runner.Chosen.{asked_for}
use artdaq_daqinterface.Runner.Served.{rounds, history, IsCalm, IsServedOut, runner_serves}

abbrev no_flags : Flags
no_flags = record {
  do_boot = false;
  do_shutdown = false;
  do_config = false;
  do_recover = false;
  do_start_running = false;
  do_stop_running = false;
  do_terminate = false;
  do_pause_running = false;
  do_resume_running = false;
  do_enable = false;
  do_disable = false;
  do_trace_get = false;
  do_trace_set = false;
}

-- A runner that counts its calls.
abbrev counter : Flags → Runner ℕ
counter f = record {
  exception = false;
  in_recovery = false;
  manage_processes = true;
  state = "ready";
  flags = f;
  others = 0;
}

-- A recovery clears the flags.
abbrev count : Round → Runner ℕ → Runner ℕ × Bool
count (serve do_recover) r = (record r { others = r.others + 1; flags = no_flags }, false)
count _ r = (record r { others = r.others + 1 }, false)

abbrev keeps : Runner ℕ → Runner ℕ × Bool
keeps r = (r, false)

abbrev count-IsCalm : IsCalm count
count-IsCalm = record {
  returns = λ round r. (counted round r).0;
  flags_after = λ round r. (counted round r).1;
  sets_no_exception = λ round r. (counted round r).2;
}
  where
    counted :
        (round : Round) (r : Runner ℕ)
        → ((count round r).1 ≡ false)
          × (((count round r).0.flags ≡ r.flags) ⊎ (asked_for (count round r).0.flags ≡ []))
          × (r.exception ≡ false → (count round r).0.exception ≡ false)
    counted (serve do_recover) r = (refl, inr refl, λ e. e)
    counted (serve do_boot) r = (refl, inl refl, λ e. e)
    counted (serve do_config) r = (refl, inl refl, λ e. e)
    counted (serve do_start_running) r = (refl, inl refl, λ e. e)
    counted (serve do_stop_running) r = (refl, inl refl, λ e. e)
    counted (serve do_terminate) r = (refl, inl refl, λ e. e)
    counted (serve do_enable) r = (refl, inl refl, λ e. e)
    counted (serve do_disable) r = (refl, inl refl, λ e. e)
    counted (serve do_trace_get) r = (refl, inl refl, λ e. e)
    counted (serve do_trace_set) r = (refl, inl refl, λ e. e)
    counted (serve (do_command c)) r = (refl, inl refl, λ e. e)
    counted raise_exception r = (refl, inl refl, λ e. e)
    counted check_processes r = (refl, inl refl, λ e. e)
    counted idle r = (refl, inl refl, λ e. e)

-- Requests to configure and to boot.
abbrev both : Flags
both = record no_flags { do_boot = true; do_config = true }

checks_when_calm : (next_round (counter no_flags)).0 ≡ check_processes
unfolding next_round
checks_when_calm = refl

recovers : runner count keeps (record (counter both) { exception = true }) ≡ (counter both, false)
unfolding runner
recovers = refl

-- Requests to boot, to recover and to start.
abbrev three : Flags
three = record no_flags { do_boot = true; do_recover = true; do_start_running = true }

-- The recovery drops the request to start.
drops_start :
    (history count keeps 3 (counter three)
      ≡ serve do_boot ∷ serve do_recover ∷ check_processes ∷ [])
    × (asked_for (rounds count keeps 2 (counter three)).flags ≡ [])
unfolding next_round runner
drops_start = (refl, refl)

runner_serves_example :
    IsServedOut count keeps (counter three) (do_boot ∷ do_recover ∷ do_start_running ∷ [])
runner_serves_example = runner_serves count keeps count-IsCalm (counter three) refl
