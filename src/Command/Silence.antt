-- ===== src/Command/Silence.antt =====
-- rc/control/daqinterface.py, `do_command`: after an exception no process is called.
use artdaq_daqinterface.Prelude.{
  ℕ, String, ◌≡◌, refl, sym, ap, ◌∙◌, Bool, true, false, List, [], ◌∷◌, ◌++◌, ◌||◌, if_both,
  if◌then◌else◌,
}
use mathlib.Core.List.{append_assoc, append-nil}
use artdaq_daqinterface.Procinfo.{Procinfo}
use artdaq_daqinterface.Command.{
  Command, Call, Reply, Sending, process_command, run_bucket, send_bucket, priority_rankings,
  send_priorities, send_proctypes, proctypes_in_order, send_subsystems,
}

-- The exception is set, and the processes are these.
pub record IsSilent (ps : List Procinfo) (s : Sending) : Type 0 where
  pub set : s.exception ≡ true
  pub kept : s.procinfos ≡ ps

module _ (call : Procinfo → Call → Reply) (tmp_run_record : String) (c : Command) where
  run_bucket-IsSilent :
      (in_bucket : Procinfo → Bool) (ps before : List Procinfo) (s : Sending)
      → IsSilent before s
      → IsSilent (before ++ ps) (run_bucket call tmp_run_record c in_bucket s ps)
  unfolding run_bucket process_command
  run_bucket-IsSilent in_bucket [] before s silent = record {
    set = silent.set;
    kept = silent.kept ∙ sym (append-nil before);
  }
  run_bucket-IsSilent in_bucket (p ∷ ps) before s silent =
      rw (sym (append_assoc before (p ∷ []) ps))
        (run_bucket-IsSilent in_bucket ps (before ++ p ∷ []) _ (next (in_bucket p)))
    where
      next :
          (b : Bool)
          → IsSilent (before ++ p ∷ []) (
              if b
              then record {
                procinfos =
                    s.procinfos ++ (process_command call tmp_run_record c p s.exception).0 ∷ [];
                exception = (process_command call tmp_run_record c p s.exception).1;
                key_error = s.key_error || (process_command call tmp_run_record c p s.exception).2;
                sent = s.sent ++ p.label ∷ [];
              }
              else record s { procinfos = s.procinfos ++ p ∷ [] })
      next true = record { set = simp silent.set; kept = simp (silent.set, silent.kept) }
      next false = record { set = silent.set; kept = ap (λ l. l ++ p ∷ []) silent.kept }

  send_bucket-IsSilent :
      (in_bucket : Procinfo → Bool) (s : Sending) (ps : List Procinfo)
      → IsSilent ps s
      → IsSilent ps (send_bucket call tmp_run_record c in_bucket s)
  unfolding send_bucket
  send_bucket-IsSilent in_bucket s ps silent =
      let run =
        run_bucket-IsSilent in_bucket s.procinfos [] (record s { procinfos = [] })
          (record { set = silent.set; kept = refl }) in
      if_both (IsSilent ps) s.key_error silent
        (record { set = run.set; kept = run.kept ∙ silent.kept })

  send_priorities-IsSilent :
      (ss proctype : String) (ns : List ℕ) (s : Sending) (ps : List Procinfo)
      → IsSilent ps s
      → IsSilent ps (send_priorities call tmp_run_record c ss proctype ns s)
  unfolding send_priorities
  send_priorities-IsSilent ss proctype [] s ps silent = silent
  send_priorities-IsSilent ss proctype (n ∷ ns) s ps silent =
      send_priorities-IsSilent ss proctype ns _ ps (send_bucket-IsSilent _ s ps silent)

  send_proctypes-IsSilent :
      (ss : String) (types : List String) (s : Sending) (ps : List Procinfo)
      → IsSilent ps s
      → IsSilent ps (send_proctypes call tmp_run_record c ss types s)
  unfolding send_proctypes
  send_proctypes-IsSilent ss [] s ps silent = silent
  send_proctypes-IsSilent ss (t ∷ ts) s ps silent = send_proctypes-IsSilent ss ts _ ps (
      send_priorities-IsSilent ss t (priority_rankings call tmp_run_record c ss t s.procinfos) s ps
        silent)

  -- Where the exception flag is set, the loops over the rest of the subsystems leave it set and every
  -- process as it is, whatever the processes would answer.
  pub send_subsystems-IsSilent :
      (order : List String) (s : Sending) (ps : List Procinfo)
      → IsSilent ps s
      → IsSilent ps (send_subsystems call tmp_run_record c order s)
  unfolding send_subsystems
  send_subsystems-IsSilent [] s ps silent = silent
  send_subsystems-IsSilent (ss ∷ rest) s ps silent =
      send_subsystems-IsSilent rest _ ps
        (send_proctypes-IsSilent ss (proctypes_in_order c) s ps silent)
