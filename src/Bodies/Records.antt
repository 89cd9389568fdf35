-- ===== src/Bodies/Records.antt =====
-- rc/control/daqinterface.py, `do_start_running`: what a run that starts has in its run record.
use artdaq_daqinterface.Prelude.{
  String, ◌≡◌, refl, sym, ◌∙◌, inl, inr, Bool, true, false, ◌&&◌, Option, some, List, [], ◌∷◌, isin,
  if_cases, Option-cases,
}
use artdaq_daqinterface.Component.Revert.{differs}
use artdaq_daqinterface.Bodies.{
  Daqinterface, Progress, goes_on, returned, raised_out, endless, ◌then_step◌, run_steps, may_raise,
  complete_as, Servers, recover_from, after_recovery, recover_and_return, or_recover,
}
use artdaq_daqinterface.Bodies.Running.{
  StartAnswers, archive_info, keep_run_record, start_processes, start_run, do_start_running,
}
use artdaq_daqinterface.Bodies.Diagram.{Recovers, recover-Recovers}

-- The run number is new, and the record of the configuration was copied under it.
pub record IsRecorded (w : StartAnswers) (run_number : String) : Type 0 where
  pub is_new : isin run_number w.run_records ≡ false
  pub has_configuration : w.tmp_run_record_exists ≡ true
  pub is_copied : w.copytree_raises ≡ false
  pub has_config_info : w.put_config_info_raises ≡ false

-- The same for the part before the functions of the experiment.
abbrev Kept : StartAnswers → String → Type 0
Kept w run_number =
    (isin run_number w.run_records ≡ false)
    × (w.tmp_run_record_exists ≡ true)
    × (w.copytree_raises ≡ false)

module _ {A : Type 0} where
  -- A body that has returned in the state "running" has this property.
  abbrev pub RunsOnly : Type 0 → Progress A → Type 0
  RunsOnly P (returned d) = d.recovery.component.state ≡ "running" → P
  RunsOnly P _ = Unit

  -- A part that goes on with the property, or has stopped.
  abbrev Stops : Type 0 → Progress A → Type 0
  Stops P (goes_on d) = P
  Stops P (returned d) = d.recovery.component.state ≡ "stopped"
  Stops P (raised_out d) = Unit
  Stops P (endless loop) = Unit

  always : (P : Type 0) (p : Progress A) → P → RunsOnly P p
  always P (goes_on d) h = tt
  always P (returned d) h = λ e. h
  always P (raised_out d) h = tt
  always P (endless loop) h = tt

  Stops-then :
      (P Q : Type 0) (first : Progress A) (next : Daqinterface A → Progress A)
      → Stops P first
      → (P → (d : Daqinterface A) → RunsOnly Q (next d))
      → RunsOnly Q (first then_step next)
  Stops-then P Q (goes_on d) next h later = later h d
  Stops-then P Q (returned d) next h later =
      λ running. absurd (differs "stopped" "running" refl (sym h ∙ running))
  Stops-then P Q (raised_out d) next h later = tt
  Stops-then P Q (endless loop) next h later = tt

  -- A part that does not go on.
  Stops-any : (P : Type 0) (p : Progress A) → Stops ⊥ p → Stops P p
  Stops-any P (goes_on d) h = absurd h
  Stops-any P (returned d) h = h
  Stops-any P (raised_out d) h = tt
  Stops-any P (endless loop) h = tt

  Stops-over :
      (P : Type 0) (first : Progress A) (next : Daqinterface A → Progress A)
      → Stops ⊥ first
      → Stops P (first then_step next)
  Stops-over P (goes_on d) next h = absurd h
  Stops-over P (returned d) next h = h
  Stops-over P (raised_out d) next h = tt
  Stops-over P (endless loop) next h = tt

module _ {A : Type 0} (servers : Servers) where
  may_raise-Stops : (b : Bool) (d : Daqinterface A) → Stops Unit (may_raise b d)
  may_raise-Stops true d = tt
  may_raise-Stops false d = tt

  recover-Stops :
      (extrainfo : String) (d : Daqinterface A) → Stops ⊥ (recover_and_return servers extrainfo d)
  recover-Stops extrainfo d =
      stops (recover_from servers extrainfo d)
        (recover-Recovers d.recovery.component "" servers extrainfo d (inl (refl, refl, refl)))
    where
      stops :
          (x : Daqinterface A × Bool)
          → Recovers d.recovery.component servers x
          → Stops ⊥ (after_recovery servers (λ d'. returned d') x)
      stops (d', false) at = at.0
      stops (d', true) at = tt

  or_recover-Stops :
      (b : Bool) (extrainfo : String) (d : Daqinterface A)
      → Stops (b ≡ false) (or_recover servers b extrainfo d)
  or_recover-Stops true extrainfo d =
      Stops-any (true ≡ false) (recover_and_return servers extrainfo d) (recover-Stops extrainfo d)
  or_recover-Stops false extrainfo d = refl

  module _ (w : StartAnswers) (run_number : String) where
    keep_run_record-Stops :
        (d : Daqinterface A) → Stops (Kept w run_number) (keep_run_record servers w run_number d)
    unfolding keep_run_record run_steps
    keep_run_record-Stops d =
        let S = λ (p : Progress A). Stops (Kept w run_number) p in
        if_cases S (isin run_number w.run_records) (λ old. tt)
          (λ new.
            if_cases S w.tmp_run_record_exists
              (λ exists.
                copying w.copytree_raises w.cleanup_raises (λ copied. (new, exists, copied)))
              (λ missing.
                Stops-any (Kept w run_number)
                  (recover_and_return servers
                    "Error in DAQInterface: unable to find temporary run records directory" d)
                  (recover-Stops
                    "Error in DAQInterface: unable to find temporary run records directory" d)))
      where
        copying :
            (b c : Bool)
            → (b ≡ false → Kept w run_number)
            → Stops (Kept w run_number) (
                run_steps
                  (or_recover servers b
                      "Error: Attempt to copy temporary run record into permanent run record didn't work"
                    ∷ may_raise c
                    ∷ [])
                  d)
        copying true c kept =
            let text : String =
              "Error: Attempt to copy temporary run record into permanent run record didn't work" in
            Stops-over (Kept w run_number) (recover_and_return servers text d)
              (λ d'. run_steps (may_raise c ∷ []) d') (recover-Stops text d)
        copying false true kept = tt
        copying false false kept = kept refl

    start_run-RunsOnly :
        (d : Daqinterface A) → RunsOnly (IsRecorded w run_number) (start_run servers w run_number d)
    unfolding start_run run_steps
    start_run-RunsOnly d =
        let d' : Daqinterface A = record d { run_number = some run_number } in
        let last : List (Daqinterface A → Progress A) =
          archive_info servers w.archiving "Problem copying the information to archive"
          ∷ may_raise w.trace_script_raises
          ∷ start_processes servers w.boardreader_priorities
          ∷ may_raise w.start_datataking_raises
          ∷ (λ x. may_raise (x.recovery.manage_processes && w.softlink_raises) x)
          ∷ (λ x. returned (complete_as "starting" x))
          ∷ [] in
        let saving : List (Daqinterface A → Progress A) =
          or_recover servers w.put_config_info_raises
            "An exception was thrown when trying to save configuration info"
          ∷ last in
        let keeping : List (Daqinterface A → Progress A) =
          keep_run_record servers w run_number ∷ saving in
        let R = IsRecorded w run_number in
        Stops-then Unit R (may_raise w.integrity_check_raises d') (λ x. run_steps keeping x)
          (may_raise-Stops w.integrity_check_raises d')
          (λ checked d1.
            Stops-then (Kept w run_number) R (keep_run_record servers w run_number d1)
              (λ x. run_steps saving x) (keep_run_record-Stops d1)
              (λ kept d2.
                Stops-then (w.put_config_info_raises ≡ false) R
                  (or_recover servers w.put_config_info_raises
                    "An exception was thrown when trying to save configuration info" d2)
                  (λ x. run_steps last x)
                  (or_recover-Stops w.put_config_info_raises
                    "An exception was thrown when trying to save configuration info" d2)
                  (λ saved d3. always R (run_steps last d3) (record {
                    is_new = kept.0;
                    has_configuration = kept.1;
                    is_copied = kept.2;
                    has_config_info = saved;
                  }))))

  -- A start that returns in the state "running" has found a run number in the arguments that no run
  -- record has, a record of the configuration, which was copied under that number, and the
  -- configuration information saved.
  pub running_needs_record :
      (run_number_of : Option A → Option String) (w : StartAnswers) (d : Daqinterface A)
      → RunsOnly
          ((run_number : String) × (run_number_of d.recovery.component.run_params ≡ some run_number)
            × IsRecorded w run_number)
          (do_start_running servers run_number_of w d)
  unfolding do_start_running
  running_needs_record run_number_of w d =
      elim (Option-cases (run_number_of d.recovery.component.run_params)) [
        | inl nothing ↦ rw (nothing, do_start_running) tt
        | inr (run_number, found) ↦
            rw (found, do_start_running)
              (weaker (start_run servers w run_number d) (λ r. (run_number, refl, r))
                (start_run-RunsOnly w run_number d))
      ]
    where
      weaker : {P Q : Type 0} (p : Progress A) → (P → Q) → RunsOnly P p → RunsOnly Q p
      weaker (goes_on d') f h = tt
      weaker (returned d') f h = λ e. f (h e)
      weaker (raised_out d') f h = tt
      weaker (endless loop) f h = tt
