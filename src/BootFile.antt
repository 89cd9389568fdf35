-- ===== src/BootFile.antt =====
-- rc/control/config_functions_local.py, `get_boot_info_base`: the reading of a boot file.
pub mod Reading
pub mod Boardreaders
pub mod Ranks
pub mod Numbers
mod Tests
use artdaq_daqinterface.Prelude.{
  ℕ, suc, ◌+◌, ◌*◌, ◌-◌, String, ◌=ₛ◌, Bool, true, false, not, ◌&&◌, ◌||◌, Option, none, some, List,
  [], ◌∷◌, ◌++◌, occurs, append_text, ◌==◌, if◌then◌else◌, Dict, lookup, insert,
}
use artdaq_daqinterface.Bookkeeping.Graph.{Subsystem}

pub data BootFileFault : Type 0 where
  undefined_variable : (line : String) → BootFileFault
  no_number : (text : String) → BootFileFault
  subsystem_syntax : (line : String) → BootFileFault
  inconsistent : (num_expected_processes num_actual_processes : ℕ) → BootFileFault
  host_is_list : (compname : String) → BootFileFault
  unexpected_elements : (compname : String) → BootFileFault

pub data BootOutcome {ℓ} (A : Type ℓ) : Type ℓ where
  failed : BootFileFault → BootOutcome A
  done : A → BootOutcome A

infixl 5 ◌then_do◌
abbrev pub ◌then_do◌ {ℓ κ} :
    {A : Type ℓ} {B : Type κ} → BootOutcome A → (A → BootOutcome B) → BootOutcome B
◌then_do◌ (failed fault) next = failed fault
◌then_do◌ (done a) next = next a

-- What the regular expressions find in a line, with the expansion of environment variables, `int`,
-- `str.split` and `os.path.dirname`.
pub record LinePatterns : Type 0 where
  pub is_comment : String → Bool
  pub is_blank : String → Bool
  pub expand : String → Option String
  pub find_process_manager_variable : String → Bool
  pub daq_setup_script : String → Option String
  pub request_address : String → Option String
  pub debug_level : String → Option String
  pub manages : String → Bool
  pub manages_not : String → Bool
  pub disables_recovery : String → Bool
  pub enables_recovery : String → Bool
  pub subsystem_entry : String → Option (String × String)
  pub member_entry : String → Option (String × (String × String))
  pub overwrite : String → Option (String × String)
  pub says_false : String → Bool
  pub int : String → Option ℕ
  pub split : String → List String
  pub dirname : String → String

-- The environment's variables and the fields of DAQInterface that the ports and ranks depend on.
pub record Ports : Type 0 where
  pub base_port : ℕ
  pub ports_per_partition : ℕ
  pub partition_number : ℕ
  pub num_components : ℕ

-- A port as a text, or as the text of a number.
pub data Port : Type 0 where
  given : String → Port
  formatted : ℕ → Port

pub record Member : Type 0 where
  pub name : String
  pub rank : ℕ
  pub host : String
  pub port : Port
  pub label : String
  pub subsystem : String
  pub allowed_processors : Option String
  pub target : String
  pub prepend : String

-- The variables of the loop and the fields that it assigns; none in the two tables is None.
pub record BootReading : Type 0 where
  pub member_dict : Dict (Option String)
  pub subsystem_dict : Dict (Option String)
  pub num_expected_processes : ℕ
  pub num_actual_processes : ℕ
  pub procinfos : List Member
  pub subsystems : Dict Subsystem
  pub bootfile_fhicl_overwrites : Dict String
  pub daq_setup_script : Option String
  pub daq_dir : Option String
  pub request_address : Option String
  pub debug_level : Option ℕ
  pub manage_processes : Option Bool
  pub disable_recovery : Bool

abbrev pub initial_member_dict : Dict (Option String)
initial_member_dict =
    ("name", none)
    ∷ ("label", none)
    ∷ ("host", none)
    ∷ ("port", some "not set")
    ∷ ("fhicl", none)
    ∷ ("subsystem", some "not set")
    ∷ ("allowed_processors", some "not set")
    ∷ ("target", some "not set")
    ∷ ("prepend", some "not set")
    ∷ []

abbrev pub initial_subsystem_dict : Dict (Option String)
initial_subsystem_dict =
    ("id", none)
    ∷ ("source", some "not set")
    ∷ ("destination", some "not set")
    ∷ ("fragmentMode", some "not set")
    ∷ []

-- The text under a key that the table has, with a value.
abbrev pub text_of : String → Dict (Option String) → String
text_of key table = elim (lookup key table) [
  | none ↦ ""
  | some value ↦ elim value [ none ↦ "" | some t ↦ t ]
]

abbrev pub unless_set : String → String → String
unless_set instead text = if text =ₛ "not set" then instead else text

unfoldable pub is_filled : Dict (Option String) → Bool
is_filled [] = true
is_filled ((key, some value) ∷ rest) = is_filled rest
is_filled ((key, none) ∷ rest) = false

unfoldable pub is_filled_member : Dict (Option String) → Bool
is_filled_member [] = true
is_filled_member ((key, some value) ∷ rest) = is_filled_member rest
is_filled_member ((key, none) ∷ rest) = (key =ₛ "fhicl") && is_filled_member rest

unfoldable pub enter_subsystem : String → String → Dict (Option String) → Dict (Option String)
unfolding lookup insert append_text
enter_subsystem key value table =
    if not (key =ₛ "source") || (text_of "source" table =ₛ "not set")
    then insert key (some value) table
    else insert key (some (append_text (text_of key table) (append_text " " value))) table

unfoldable pub reset_member : Dict (Option String) → Dict (Option String)
reset_member [] = []
reset_member ((varname, value) ∷ rest) =
    let stays =
      (varname =ₛ "port")
      || (varname =ₛ "subsystem")
      || (varname =ₛ "allowed_processors")
      || (varname =ₛ "target")
      || (varname =ₛ "prepend") in
    (varname, if stays then some "not set" else none) ∷ reset_member rest

-- The formula for the ports that a boot file leaves out.
abbrev pub default_port : Ports → ℕ → ℕ
default_port e rank = e.base_port + 100 + e.partition_number * e.ports_per_partition + rank
