-- ===== src/Wiring.antt =====
-- rc/control/bookkeeping.py: which processes send to which, and the entries of the sources and
-- destinations tables that say so (`create_sources_or_destinations_string`).
pub mod Groups
pub mod Members
pub mod Connections
pub mod Receivers
pub mod Senders
pub mod Agreement
pub mod Nodes
pub mod Parameters
pub mod Entries
pub mod Ends
mod Tests
use artdaq_daqinterface.Prelude.{
  ℕ, ◌/◌, String, ◌=ₛ◌, Bool, true, false, not, ◌&&◌, ◌||◌, Option, none, some, List, [], ◌∷◌, ◌++◌,
  occurs, leb, if◌then◌else◌, Dict, lookup, has,
}
use artdaq_daqinterface.Procinfo.{Procinfo, is_boardreader, is_eventbuilder}
use artdaq_daqinterface.Bookkeeping.Errors.{
  Result, ok, err, ◌>>=◌, at_key, key_error, assertion_error,
}
use artdaq_daqinterface.Bookkeeping.Graph.{Subsystem}

-- What the construction of the tables reads. `max_event_size_value` is the search for
-- `max_event_size_bytes` in a document, and `hostname` the environment variable HOSTNAME.
pub record Wiring : Type 0 where
  pub advanced_memory_usage : Bool
  pub max_fragment_size_bytes : ℕ
  pub default_transfer : String
  pub br_transfer : String
  pub eb_transfer : String
  pub dl_transfer : String
  pub hostname : String
  pub max_event_size_value : String → Option ℕ
  pub max_fragment_size_by_label : Dict ℕ
  pub max_event_sizes : Dict ℕ
  pub procinfos : List Procinfo
  pub subsystems : Dict Subsystem

-- `sorted(..., key=lambda procinfo: procinfo.rank)`, which keeps the order of equal ranks.
unfoldable pub place_by_rank : Procinfo → List Procinfo → List Procinfo
place_by_rank p [] = p ∷ []
place_by_rank p (q ∷ qs) =
    let later = q ∷ place_by_rank p qs in if leb p.rank q.rank then p ∷ q ∷ qs else later

unfoldable pub sorted_by_rank : List Procinfo → List Procinfo
unfolding place_by_rank
sorted_by_rank [] = []
sorted_by_rank (p ∷ ps) = place_by_rank p (sorted_by_rank ps)

-- The ranks and hosts of `host_map_string`.
unfoldable pub host_map : Wiring → List Procinfo → List (ℕ × String)
host_map w [] = []
host_map w (p ∷ ps) =
    let rest = host_map w ps in
    if p.name =ₛ "RoutingManager"
    then rest
    else (p.rank, if p.host =ₛ "localhost" then w.hostname else p.host) ∷ rest

unfoldable pub any_datalogger : String → List Procinfo → Bool
any_datalogger ss [] = false
any_datalogger ss (p ∷ ps) =
    ((p.subsystem =ₛ ss) && (p.name =ₛ "DataLogger")) || any_datalogger ss ps

-- `subsystem_has_dataloggers[ss]`
unfoldable pub subsystem_has_dataloggers : Wiring → String → Result Bool
unfolding any_datalogger
subsystem_has_dataloggers w ss =
    if has ss w.subsystems then ok (any_datalogger ss w.procinfos) else err (key_error ss)

unfoldable pub first_key : List String → String → String
first_key [] name = name
first_key (tk ∷ tks) name = let later = first_key tks name in if occurs tk name then tk else later

unfoldable pub get_type_key : String → String
unfolding first_key
get_type_key name =
    first_key ("BoardReader" ∷ "EventBuilder" ∷ "DataLogger" ∷ "Dispatcher" ∷ "RoutingManager" ∷ [])
      name

-- `_procinfos_by_ss_type`, keyed by a subsystem and a type.
abbrev pub Groups : Type 0
Groups = List ((String × String) × List Procinfo)

abbrev pub same_key : String × String → String × String → Bool
same_key j k = (j.0 =ₛ k.0) && (j.1 =ₛ k.1)

abbrev pub key_of : Procinfo → String × String
key_of p = (p.subsystem, get_type_key p.name)

-- `setdefault(key, []).append(pi)`
unfoldable pub append_to : String × String → Procinfo → Groups → Groups
append_to key p [] = (key, p ∷ []) ∷ []
append_to key p ((k, ps) ∷ rest) =
    let after = (k, ps) ∷ append_to key p rest in
    if same_key k key then (k, ps ++ p ∷ []) ∷ rest else after

unfoldable pub group_all : List Procinfo → Groups → Groups
unfolding append_to
group_all [] groups = groups
group_all (p ∷ ps) groups = group_all ps (append_to (key_of p) p groups)

-- `_procinfos_by_ss_type.get(key, [])`
unfoldable pub group_of : String × String → Groups → List Procinfo
group_of key [] = []
group_of key ((k, ps) ∷ rest) =
    let later = group_of key rest in if same_key k key then ps else later

unfoldable pub procinfos_by_ss_type : Wiring → Groups
unfolding group_all sorted_by_rank
procinfos_by_ss_type w = group_all (sorted_by_rank w.procinfos) []

-- `_inter_ss_eb_destinations.get(ss, [])`
unfoldable pub destination_ebs : Option String → Groups → List Procinfo
destination_ebs none groups = []
destination_ebs (some dest) groups =
    if dest =ₛ "" then [] else group_of (dest, "EventBuilder") groups

unfoldable pub inter_ss_eb_destinations : Wiring → String → List Procinfo
unfolding destination_ebs procinfos_by_ss_type
inter_ss_eb_destinations w ss = elim (lookup ss w.subsystems) [
  | none ↦ []
  | some s ↦ destination_ebs s.destination (procinfos_by_ss_type w)
]

-- `self.subsystems[other_ss].destination == ss`
unfoldable pub is_destination : String → Option String → Bool
is_destination ss none = false
is_destination ss (some dest) = dest =ₛ ss

unfoldable pub source_ebs : String → Groups → Dict Subsystem → List Procinfo
unfolding is_destination
source_ebs ss groups [] = []
source_ebs ss groups ((other_ss, s) ∷ rest) =
    (if is_destination ss s.destination then group_of (other_ss, "EventBuilder") groups else [])
    ++ source_ebs ss groups rest

-- `_inter_ss_eb_sources.get(ss, [])`
unfoldable pub inter_ss_eb_sources : Wiring → String → List Procinfo
unfolding source_ebs procinfos_by_ss_type sorted_by_rank
inter_ss_eb_sources w ss =
    if has ss w.subsystems
    then sorted_by_rank (source_ebs ss (procinfos_by_ss_type w) w.subsystems)
    else []

pub data Nodetype : Type 0 where
  sources destinations : Nodetype

abbrev pub is_sources : Nodetype → Bool
is_sources sources = true
is_sources destinations = false

-- The processes of the subsystem itself, where `group` are those of a type.
unfoldable pub own_destinations : String → Bool → (String → List Procinfo) → List Procinfo
unfolding sorted_by_rank
own_destinations proc_type has_dataloggers group =
    if proc_type =ₛ "BoardReader"
    then group "EventBuilder"
    else (if proc_type =ₛ "EventBuilder"
        then sorted_by_rank
            (group "DataLogger" ++ (if has_dataloggers then [] else group "Dispatcher"))
        else (if proc_type =ₛ "DataLogger" then group "Dispatcher" else []))

unfoldable pub own_sources : String → Bool → (String → List Procinfo) → List Procinfo
unfolding sorted_by_rank
own_sources proc_type has_dataloggers group =
    if proc_type =ₛ "EventBuilder"
    then group "BoardReader"
    else (if proc_type =ₛ "DataLogger"
        then group "EventBuilder"
        else (if proc_type =ₛ "Dispatcher"
            then sorted_by_rank
                (group "DataLogger" ++ (if has_dataloggers then [] else group "EventBuilder"))
            else []))

-- `procinfos_for_string`
unfoldable pub procinfos_for_string : Wiring → Nodetype → Bool → Bool → Procinfo → List Procinfo
unfolding own_destinations own_sources inter_ss_eb_destinations inter_ss_eb_sources
procinfos_for_string w destinations inter_subsystem_transfer has_dataloggers p =
    let proc_type = get_type_key p.name in
    let own =
      own_destinations proc_type has_dataloggers
        (λ t. group_of (p.subsystem, t) (procinfos_by_ss_type w)) in
    let selected : List Procinfo = if inter_subsystem_transfer then [] else own in
    if (proc_type =ₛ "EventBuilder") && inter_subsystem_transfer
    then sorted_by_rank (selected ++ inter_ss_eb_destinations w p.subsystem)
    else selected
procinfos_for_string w sources inter_subsystem_transfer has_dataloggers p =
    let proc_type = get_type_key p.name in
    let own =
      own_sources proc_type has_dataloggers
        (λ t. group_of (p.subsystem, t) (procinfos_by_ss_type w)) in
    let selected : List Procinfo = if inter_subsystem_transfer then [] else own in
    if proc_type =ₛ "EventBuilder"
    then sorted_by_rank (selected ++ inter_ss_eb_sources w p.subsystem)
    else selected
