-- ===== src/Heartbeats.antt =====
-- rc/control/manage_processes_direct.py, `check_proc_heartbeats_base`: the search for the processes
-- that are still there, and what becomes of the others.
pub mod Remaining
pub mod Met
pub mod Survivors
mod Tests
use artdaq_daqinterface.Prelude.{
  String, ◌=ₛ◌, Bool, true, false, not, ◌&&◌, List, [], ◌∷◌, ◌++◌, map, isin, length, append_text,
  ◌==◌, if◌then◌else◌, select,
}
use artdaq_daqinterface.Procinfo.{Procinfo}
use artdaq_daqinterface.Boot.{set_of}
use artdaq_daqinterface.Requirements.{
  Searches, Requirement, Loss, tolerated, violates_rule, violates_default, lose_process,
}

pub data Pulse : Type 0 where
  quiet : Pulse
  loss_violates : Loss → Pulse
  died : (labels : List String) → Pulse
  miscounted : Pulse

-- The processes and the requirements behind the check, with what it raises, and what it returns.
pub record Heard : Type 0 where
  pub procinfos : List Procinfo
  pub requirements : List Requirement
  pub pulse : Pulse
  pub found_processes : List Procinfo

abbrev pub is_none : List Procinfo → Bool
is_none [] = true
is_none (p ∷ ps) = false

-- `self.procinfos.remove(procinfo)`; a process is known by its label.
unfoldable pub remove : String → List Procinfo → List Procinfo
remove label [] = []
remove label (p ∷ ps) = let rest = p ∷ remove label ps in if p.label =ₛ label then ps else rest

-- `labels_on_host` is what `get_pids_and_labels_on_host` finds for the processes, and `suffix` what
-- the partition's format adds to a label.
module _ (labels_on_host : List Procinfo → String → List String) (suffix : String) where
  abbrev pub is_found : List Procinfo → Procinfo → Bool
  is_found procinfos p = isin (append_text p.label suffix) (labels_on_host procinfos p.host)

  -- The loops over the hosts and their processes, for those that are found and for the others.
  unfoldable pub sweep : (Procinfo → Bool) → List Procinfo → List String → List Procinfo
  unfolding select
  sweep wanted procinfos [] = []
  sweep wanted procinfos (host ∷ hosts) =
      select (λ p. (p.host =ₛ host) && wanted p) procinfos ++ sweep wanted procinfos hosts

  unfoldable pub found_on_hosts : List Procinfo → List Procinfo
  unfolding sweep set_of
  found_on_hosts ps = sweep (is_found ps) ps (set_of (map (λ p. p.host) ps))

  unfoldable pub procinfos_to_remove : List Procinfo → List Procinfo
  unfolding sweep set_of
  procinfos_to_remove ps = sweep (λ p. not (is_found ps p)) ps (set_of (map (λ p. p.host) ps))

module _ (re : Searches) where
  -- The loop of a running system, which an exception ends.
  unfoldable pub remove_all :
      List Procinfo → List Procinfo → List Requirement → List Procinfo × List Requirement × Pulse
  unfolding remove lose_process
  remove_all [] ps reqs = (ps, reqs, quiet)
  remove_all (p ∷ lost) ps reqs =
      let left = remove p.label ps in
      let (reqs', loss) = lose_process re left p reqs in
      let rest = remove_all lost left reqs' in
      elim loss [
        | tolerated ↦ rest
        | violates_rule regexp ↦ (left, reqs', loss_violates (violates_rule regexp))
        | violates_default description ↦ (left, reqs', loss_violates (violates_default description))
      ]

  unfoldable pub check_proc_heartbeats :
      (List Procinfo → String → List String)
      → String
      → Bool
      → String
      → List Procinfo
      → List Requirement
      → Heard
  unfolding found_on_hosts procinfos_to_remove remove_all
  check_proc_heartbeats labels_on_host suffix requires_success state ps reqs =
      let found = found_on_hosts labels_on_host suffix ps in
      let lost = procinfos_to_remove labels_on_host suffix ps in
      let (left, reqs', pulse) = remove_all lost ps reqs in
      let unchanged : Heard = record {
        procinfos = ps;
        requirements = reqs;
        pulse = quiet;
        found_processes = found;
      } in
      let all_ok : Heard =
        if length found == length ps then unchanged else record unchanged { pulse = miscounted } in
      if is_none lost
      then all_ok
      else (if not requires_success
          then unchanged
          else (if state =ₛ "running"
              then record {
                procinfos = left;
                requirements = reqs';
                pulse = pulse;
                found_processes = found;
              }
              else record unchanged { pulse = died (map (λ p. p.label) lost) }))
