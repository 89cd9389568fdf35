-- ===== src/Bodies/Waiting.antt =====
-- rc/control/daqinterface.py, `do_boot_impl`: the loop that waits for the launched processes.
use artdaq_daqinterface.Prelude.{
  ℕ, zero, suc, ◌+◌, ◌≤◌, ◌<◌, ◌≡◌, refl, inl, inr, ◌⊎◌, true, false, length, leb, ◌==◌, arith,
  if_cases,
}
use artdaq_daqinterface.Bodies.{
  Daqinterface, Progress, goes_on, raised_out, Servers, recover_and_return,
}
use artdaq_daqinterface.Bodies.Reading.{BootAnswers}
use artdaq_daqinterface.Bodies.Launching.{launch_check, check_fails, wait_for_processes}

module _ {A : Type 0} (servers : Servers) (w : BootAnswers) (d : Daqinterface A) where
  -- What a check finds.
  abbrev pub IsRaising : ℕ → Type 0
  IsRaising n = check_fails servers w n d ≡ true

  abbrev pub IsUp : ℕ → Type 0
  IsUp n =
      (check_fails servers w n d ≡ false)
      × ((length (launch_check servers w n d).found_processes == length d.recovery.procinfos)
          ≡ true)

  abbrev pub IsMissing : ℕ → Type 0
  IsMissing n =
      (check_fails servers w n d ≡ false)
      × ((length (launch_check servers w n d).found_processes == length d.recovery.procinfos)
          ≡ false)

  -- The checks after `checks` and before `n`.
  abbrev pub AllMissing : (checks n : ℕ) → Type 0
  AllMissing checks n = (k : ℕ) → checks < k → k < n → IsMissing k

  -- A check that the loop makes: the next one in any case, and then up to the maximum.
  abbrev pub IsMade : (checks n : ℕ) → Type 0
  IsMade checks n = (checks < n) × ((n ≡ suc checks) ⊎ (n ≤ w.max_num_launch_procs_checks))

  -- How the loop ends after `checks` checks: at the first check that finds all, at one that raises an
  -- exception, at one that misses processes where the maximum is 0, or at the last one.
  abbrev pub Waited : ℕ → Progress A → Type 0
  Waited checks p =
      ((p ≡ goes_on d) × ((n : ℕ) × IsMade checks n × IsUp n × AllMissing checks n))
      ⊎ (((p ≡ raised_out d) × ((n : ℕ) × IsMade checks n × IsRaising n × AllMissing checks n))
          ⊎ (((p ≡ raised_out d) × (w.max_num_launch_procs_checks ≡ 0) × IsMissing (suc checks))
              ⊎ ((p ≡ recover_and_return servers "Problem launching the artdaq processes" d)
                  × (0 < w.max_num_launch_procs_checks)
                  × ((n : ℕ) × IsMade checks n
                      × (w.max_num_launch_procs_checks ≤ n)
                      × AllMissing checks (suc n)))))

  extend : (checks n : ℕ) → IsMissing (suc checks) → AllMissing (suc checks) n → AllMissing checks n
  extend checks n here all k low high = elim (split k low) [
    | inl first ↦ rw first here
    | inr later ↦ all k later high
  ]
    where
      split : (k : ℕ) → checks < k → (k ≡ suc checks) ⊎ (suc checks < k)
      split k low = omega (arith, low)

  none_between : (checks : ℕ) → AllMissing checks (suc checks)
  none_between checks k low high = absurd (omega (arith, low, high))

  IsMade-later :
      (checks n : ℕ)
      → suc checks < w.max_num_launch_procs_checks
      → IsMade (suc checks) n
      → IsMade checks n
  IsMade-later checks n few made = elim made.1 [
    | inl e ↦ (omega (arith, e), inr (omega (arith, e, few)))
    | inr le ↦ (omega (arith, made.0), inr le)
  ]

  later :
      (checks : ℕ) (p : Progress A)
      → suc checks < w.max_num_launch_procs_checks
      → IsMissing (suc checks)
      → Waited (suc checks) p
      → Waited checks p
  later checks p few here (inl (e, (n, made, up, all))) =
      inl (e, (n, IsMade-later checks n few made, up, extend checks n here all))
  later checks p few here (inr (inl (e, (n, made, raising, all)))) =
      inr (inl (e, (n, IsMade-later checks n few made, raising, extend checks n here all)))
  later checks p few here (inr (inr (inl (e, no_checks, missing)))) =
      absurd (omega (arith, few, no_checks))
  later checks p few here (inr (inr (inr (e, some_checks, (n, made, last, all))))) = inr (
      inr (
        inr (
          e,
          some_checks,
          (n, IsMade-later checks n few made, last, extend checks (suc n) here all),
        )))

  wait_for_processes_from :
      (fuel checks : ℕ)
      → suc w.max_num_launch_procs_checks ≤ fuel + checks
      → checks ≤ w.max_num_launch_procs_checks
      → Waited checks (wait_for_processes servers w fuel checks d)
  unfolding wait_for_processes
  wait_for_processes_from zero checks enough few = absurd (omega (arith, enough, few))
  wait_for_processes_from (suc fuel) checks enough few =
      let Q = Waited checks in
      let next : IsMade checks (suc checks) = (omega arith, inl refl) in
      let heard = launch_check servers w (suc checks) d in
      if_cases Q (check_fails servers w (suc checks) d)
        (λ raising. inr (inl (refl, (suc checks, next, raising, none_between checks))))
        (λ quiet_now.
          if_cases Q (length heard.found_processes == length d.recovery.procinfos)
            (λ up. inl (refl, (suc checks, next, (quiet_now, up), none_between checks)))
            (λ missing.
              if_cases Q (w.max_num_launch_procs_checks == 0)
                (λ no_checks.
                  inr (inr (inl (refl, ground (arith, no_checks), (quiet_now, missing)))))
                (λ some_checks.
                  if_cases Q (leb w.max_num_launch_procs_checks (suc checks))
                    (λ last. inr (
                      inr (
                        inr (
                          refl,
                          ground (arith, some_checks),
                          (
                            suc checks,
                            next,
                            ground (arith, last),
                            extend checks (suc (suc checks)) (quiet_now, missing)
                                (none_between (suc checks)),
                          ),
                        ))))
                    (λ more.
                      let few' : suc checks < w.max_num_launch_procs_checks =
                        ground (arith, more) in
                      later checks (wait_for_processes servers w fuel (suc checks) d) few'
                        (quiet_now, missing)
                        (wait_for_processes_from fuel (suc checks) (omega (arith, enough))
                          (omega (arith, few')))))))

  -- The loop that waits for the launched processes ends, after the maximal number of checks at the
  -- latest, or one where the maximum is 0. It goes on, with DAQInterface as before, at the first check
  -- that finds as many processes as there are, where none before it did; an exception leaves it at the
  -- first check that raises one; it recovers and returns where the maximum is not 0 and no check up to
  -- the last one found them; and where the maximum is 0 and the one check does not, it is left by the
  -- exception of the division by it.
  pub wait_for_processes_decides :
      Waited 0 (wait_for_processes servers w (suc w.max_num_launch_procs_checks) 0 d)
  wait_for_processes_decides =
      wait_for_processes_from (suc w.max_num_launch_procs_checks) 0 (omega arith) (omega arith)
