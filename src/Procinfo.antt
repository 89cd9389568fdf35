-- ===== src/Procinfo.antt =====
-- rc/control/daqinterface.py, the class `Procinfo`: what is known of one artdaq process.
use artdaq_daqinterface.Prelude.{ℕ, String, Bool, occurs}

-- The fields that the modelled code reads. `port` is the text of the boot file, and `port_number`
-- stands for `int(port)`.
pub record Procinfo : Type 0 where
  pub name : String
  pub rank : ℕ
  pub host : String
  pub port : String
  pub port_number : ℕ
  pub label : String
  pub subsystem : String
  pub fhicl_used : String
  pub priority : ℕ
  pub lastreturned : String
  pub state : String

-- The tests `"BoardReader" in procinfo.name` and the like.
abbrev pub is_boardreader : Procinfo → Bool
is_boardreader p = occurs "BoardReader" p.name

abbrev pub is_eventbuilder : Procinfo → Bool
is_eventbuilder p = occurs "EventBuilder" p.name

abbrev pub is_routingmanager : Procinfo → Bool
is_routingmanager p = occurs "RoutingManager" p.name
