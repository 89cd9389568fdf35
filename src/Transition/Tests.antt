-- ===== src/Transition/Tests.antt =====
-- Processes in a transition to "Ready", for rc/control/daqinterface.py.
use artdaq_daqinterface.Prelude.{
  ℕ, zero, suc, String, ◌=ₛ◌, ◌≡◌, refl, ◌↔◌, true, false, List, [], ◌∷◌, if◌then◌else◌,
}
use artdaq_daqinterface.Procinfo.{Procinfo}
use artdaq_daqinterface.Transition.{retry, check_proc_transition}
use artdaq_daqinterface.Transition.Verdict.{AllPass, complaints, check_proc_transition_decides}

abbrev process : String → String → Procinfo
process label lastreturned = record {
  name = "BoardReader";
  rank = 0;
  host = "localhost";
  port = "5206";
  port_number = 5206;
  label = label;
  subsystem = "1";
  fhicl_used = "";
  priority = 999;
  lastreturned = lastreturned;
  state = "Booted";
}

-- The second process answers "busy" until its third reading.
abbrev readings : Procinfo → ℕ → String
readings p zero = p.lastreturned
readings p (suc zero) = "busy"
readings p (suc (suc n)) = if p.label =ₛ "component02" then "Success" else "Failed"

abbrev processes : List Procinfo
processes =
    process "component01" "Success"
    ∷ process "component02" "busy"
    ∷ process "component03" "busy"
    ∷ []

redeemed_after_two : retry (readings (process "component02" "busy")) "Ready" 20 0 false ≡ (2, true)
unfolding retry
redeemed_after_two = refl

third_fails : check_proc_transition readings "Ready" processes [] ≡ (record {
  procinfos =
      process "component01" "Success"
      ∷ (record (process "component02" "Success") { state = "Ready" })
      ∷ process "component03" "Failed"
      ∷ [];
  transition_process_errors = "component03: Failed" ∷ [];
  raised = true;
})
unfolding check_proc_transition
third_fails = refl

check_proc_transition_decides_example :
    (((check_proc_transition readings "Ready" processes []).raised ≡ false)
      ↔ AllPass readings "Ready" processes)
    × ((check_proc_transition readings "Ready" processes []).transition_process_errors
        ≡ complaints readings "Ready" processes)
check_proc_transition_decides_example = check_proc_transition_decides readings "Ready" processes []
