-- ===== src/Boot.antt =====
-- rc/control/daqinterface.py: `check_boot_info`, the tests of what the boot file and the
-- configuration defined, and `determine_logfilename`.
pub mod Sound
mod Tests
use artdaq_daqinterface.Prelude.{
  ℕ, ◌+◌, String, ◌=ₛ◌, Bool, true, false, not, ◌||◌, Option, none, some, List, [], ◌∷◌, ◌++◌, map,
  Dict, lookup, isin, length, ltb, if◌then◌else◌, occurs, append_text,
}
use artdaq_daqinterface.Procinfo.{Procinfo}
use artdaq_daqinterface.Bookkeeping.Graph.{Subsystem}

-- The exceptions of the check; `missing_key` is Python's KeyError.
pub data BootFault : Type 0 where
  undefined_var : String → BootFault
  script_not_found : String → BootFault
  too_many_routingmanagers : BootFault
  duplicate_label : BootFault
  missing_key : String → BootFault
  inconsistent : String → String → BootFault

-- The fields of DAQInterface that the check reads.
pub record BootInfo : Type 0 where
  pub daq_setup_script : Option String
  pub debug_level : Option ℕ
  pub procinfos : List Procinfo
  pub subsystems : Dict Subsystem

unfoldable pub num_requested_routingmanagers : List Procinfo → ℕ
num_requested_routingmanagers [] = 0
num_requested_routingmanagers (p ∷ ps) =
    let rest = num_requested_routingmanagers ps in
    if p.name =ₛ "RoutingManager" then 1 + rest else rest

-- `set(xs)`
unfoldable pub set_of : List String → List String
unfolding isin
set_of [] = []
set_of (x ∷ xs) = let rest = set_of xs in if isin x xs then rest else x ∷ rest

abbrev pub labels : List Procinfo → List String
labels [] = []
labels (p ∷ ps) = p.label ∷ labels ps

-- The first exception, if there is one.
abbrev pub or_then : Option BootFault → Option BootFault → Option BootFault
or_then none next = next
or_then (some e) next = some e

-- `self.subsystems[dest]` and the test of its sources.
unfoldable pub source_fault : String → String → Option Subsystem → Option BootFault
unfolding isin
source_fault ss dest none = some (missing_key dest)
source_fault ss dest (some sub) = if isin ss sub.sources then none else some (inconsistent ss dest)

unfoldable pub destination_fault : Dict Subsystem → String → Option String → Option BootFault
unfolding source_fault lookup
destination_fault g ss none = none
destination_fault g ss (some dest) = source_fault ss dest (lookup dest g)

-- The loop over the subsystems.
unfoldable pub destination_faults : Dict Subsystem → Dict Subsystem → Option BootFault
unfolding destination_fault
destination_faults g [] = none
destination_faults g ((ss, sub) ∷ rest) =
    or_then (destination_fault g ss sub.destination) (destination_faults g rest)

-- `exists` stands for `os.path.exists`.
module _ (exists : String → Bool) where
  unfoldable pub script_fault : BootInfo → String → Option BootFault
  unfolding num_requested_routingmanagers set_of destination_faults
  script_fault b script =
      if not (exists script)
      then some (script_not_found script)
      else (if ltb (length b.subsystems) (num_requested_routingmanagers b.procinfos)
          then some too_many_routingmanagers
          else (if ltb (length (set_of (labels b.procinfos))) (length b.procinfos)
              then some duplicate_label
              else destination_faults b.subsystems b.subsystems))

  unfoldable pub level_fault : BootInfo → String → Option ℕ → Option BootFault
  unfolding script_fault
  level_fault b script none = some (undefined_var "debug level")
  level_fault b script (some n) = script_fault b script

  unfoldable pub setup_fault : BootInfo → Option String → Option BootFault
  unfolding level_fault
  setup_fault b none = some (undefined_var "DAQ setup script")
  setup_fault b (some script) = level_fault b script b.debug_level

  unfoldable pub check_boot_info : BootInfo → Option BootFault
  unfolding setup_fault
  check_boot_info b = setup_fault b b.daq_setup_script

-- The names of which the process's label is a part, as `"/%s-" % (procinfo.label)`.
unfoldable pub logfilename_in_list_form : Procinfo → List String → List String
unfolding append_text
logfilename_in_list_form p [] = []
logfilename_in_list_form p (name ∷ names) =
    let rest = logfilename_in_list_form p names in
    if occurs (append_text "/" (append_text p.label "-")) name then name ∷ rest else rest

-- None stands for the failed assertion.
unfoldable pub only_logfilename : List String → Option String
only_logfilename [] = some "(LOGFILE UNDETERMINED)"
only_logfilename (name ∷ []) = some name
only_logfilename (name ∷ other ∷ names) = none

-- The arguments are the five lists of names by the type of process.
unfoldable pub determine_logfilename :
    List String → List String → List String → List String → List String → Procinfo → Option String
unfolding logfilename_in_list_form only_logfilename
determine_logfilename boardreaders eventbuilders dataloggers dispatchers routingmanagers p =
    only_logfilename (
      logfilename_in_list_form p
        (boardreaders ++ eventbuilders ++ dataloggers ++ dispatchers ++ routingmanagers))
