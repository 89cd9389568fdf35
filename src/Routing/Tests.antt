-- ===== src/Routing/Tests.antt =====
-- The ports of two routing processes, for rc/control/bookkeeping.py.
use artdaq_daqinterface.Prelude.{
  ℕ, ◌+◌, ◌<◌, ◌≢◌, String, ◌≡◌, refl, true, none, some, List, [], ◌∷◌, Dict, isin,
}
use artdaq_daqinterface.Bookkeeping.Graph.{Subsystem}
use artdaq_daqinterface.Routing.{
  Router, Routes, route_all, routing_token_port, table_update_port, routing_base,
}
use artdaq_daqinterface.Routing.Apart.{routing_ports_apart}

abbrev router : String → String → String → Router
router name label subsystem = record {
  name = name;
  label = label;
  subsystem = subsystem;
  target = "not set";
  host = "localhost";
}

-- A routing manager of subsystem 1, and a DFO in it that serves subsystem 2.
abbrev routers : List Router
routers = router "RoutingManager" "RM1" "1" ∷ router "EventBuilder" "DFO1" "1" ∷ []

abbrev subsystems : Dict Subsystem
subsystems =
    ("1", record { sources = []; destination = some "2"; fragment_mode = true })
    ∷ ("2", record { sources = "1" ∷ []; destination = none; fragment_mode = true })
    ∷ []

abbrev base : ℕ
base = routing_base 10000 1000 3

abbrev routes : Routes
routes = record {
  routing_base_ports = (("1", "EventBuilder"), 13010) ∷ (("2", "EventBuilder"), 13011) ∷ [];
  router_process_hostnames =
      (("1", "EventBuilder"), "daq01") ∷ (("2", "EventBuilder"), "daq01") ∷ [];
  router_id = 2;
}

routes_are :
    route_all base "daq01" routers subsystems
      (record { routing_base_ports = []; router_process_hostnames = []; router_id = 0 })
    ≡ some routes
unfolding route_all isin
routes_are = refl

first_token : routing_token_port base "daq01" routes ("1", "EventBuilder") ≡ some 13010
unfolding routing_token_port
first_token = refl

second_token : routing_token_port base "daq01" routes ("2", "EventBuilder") ≡ some 13011
unfolding routing_token_port
second_token = refl

second_update : table_update_port base "daq01" routes ("2", "EventBuilder") ≡ some 13013
unfolding table_update_port
second_update = refl

abbrev first : ℕ
first = 13010

abbrev second : ℕ
second = 13011

abbrev update : ℕ
update = 13013

routing_ports_apart_example :
    (first ≢ second) × (first ≢ update) × (second ≢ update) × (update < base + 2 + 2)
routing_ports_apart_example =
    routing_ports_apart base "daq01" routers subsystems routes ("1", "EventBuilder")
      ("2", "EventBuilder") first second update routes_are refl first_token second_token
      second_update
