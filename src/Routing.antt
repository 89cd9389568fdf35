-- ===== src/Routing.antt =====
-- rc/control/bookkeeping.py: the ports and hosts of the routing processes.
pub mod Spread
pub mod Apart
mod Tests
use artdaq_daqinterface.Prelude.{
  ℕ, suc, ◌+◌, ◌*◌, String, ◌=ₛ◌, Bool, true, false, not, ◌&&◌, Option, none, some, List, [], ◌∷◌,
  ◌++◌, occurs, isin, length, ltb, ◌==◌, if◌then◌else◌, Dict, select,
}
use artdaq_daqinterface.Boot.{set_of}
use artdaq_daqinterface.Bookkeeping.Graph.{Subsystem}
use artdaq_daqinterface.Wiring.{same_key}

-- The fields of Procinfo that are read here.
pub record Router : Type 0 where
  pub name : String
  pub label : String
  pub subsystem : String
  pub target : String
  pub host : String

pub data RouterKind : Type 0 where
  routing_manager dfo : RouterKind

unfoldable pub get_router_process_identifier : Router → Option RouterKind
get_router_process_identifier p =
    if occurs "RoutingManager" p.name
    then some routing_manager
    else (if occurs "DFO" p.label then some dfo else none)

unfoldable pub with_target : Router → Router
with_target p = if p.target =ₛ "not set" then record p { target = "EventBuilder" } else p

-- A routing manager is in the subsystem that it is associated with, a DFO in a source of it.
unfoldable pub routes_for : String → List String → Router → Bool
unfolding get_router_process_identifier
routes_for subsystem_id sources p = elim (get_router_process_identifier p) [
  | none ↦ false
  | some kind ↦ elim kind [
    | routing_manager ↦ p.subsystem =ₛ subsystem_id
    | dfo ↦ isin p.subsystem sources
  ]
]

unfoldable pub routers_for_subsystem : String → List String → List Router → List Router
unfolding routes_for with_target select
routers_for_subsystem subsystem_id sources [] = []
routers_for_subsystem subsystem_id sources (p ∷ ps) =
    let rest = routers_for_subsystem subsystem_id sources ps in
    if routes_for subsystem_id sources p then with_target p ∷ rest else rest

abbrev pub targets : List Router → List String
targets [] = []
targets (p ∷ ps) = p.target ∷ targets ps

-- `routing_base_ports`, `router_process_hostnames` and `router_id`.
pub record Routes : Type 0 where
  pub routing_base_ports : List ((String × String) × ℕ)
  pub router_process_hostnames : List ((String × String) × String)
  pub router_id : ℕ

module _ {ℓ} {V : Type ℓ} where
  unfoldable pub assign :
      String × String → V → List ((String × String) × V) → List ((String × String) × V)
  assign key value [] = (key, value) ∷ []
  assign key value ((k, old) ∷ rest) =
      let later = (k, old) ∷ assign key value rest in
      if same_key k key then (k, value) ∷ rest else later

  unfoldable pub find_key : String × String → List ((String × String) × V) → Option V
  find_key key [] = none
  find_key key ((k, value) ∷ rest) =
      let later = find_key key rest in if same_key k key then some value else later

-- `base` is the port that the environment and the partition give, and `hostname` HOSTNAME.
module _ (base : ℕ) (hostname : String) where
  unfoldable pub route_one : String → Router → Routes → Routes
  unfolding assign
  route_one subsystem_id p r = record {
    routing_base_ports = assign (subsystem_id, p.target) (base + r.router_id) r.routing_base_ports;
    router_process_hostnames =
        assign (subsystem_id, p.target) (if p.host =ₛ "localhost" then hostname else p.host)
          r.router_process_hostnames;
    router_id = suc r.router_id;
  }

  unfoldable pub route_subsystem : String → List Router → Routes → Routes
  unfolding route_one
  route_subsystem subsystem_id [] r = r
  route_subsystem subsystem_id (p ∷ ps) r =
      route_subsystem subsystem_id ps (route_one subsystem_id p r)

  -- The loop over the subsystems; none stands for the exception about two routing processes of one
  -- subsystem with the same target.
  unfoldable pub route_all : List Router → Dict Subsystem → Routes → Option Routes
  unfolding route_subsystem routers_for_subsystem set_of
  route_all ps [] r = some r
  route_all ps ((subsystem_id, subsystem) ∷ rest) r =
      let routers = routers_for_subsystem subsystem_id subsystem.sources ps in
      let next = route_all ps rest (route_subsystem subsystem_id routers r) in
      if ltb 1 (length routers)
        && not (length (targets routers) == length (set_of (targets routers)))
      then none
      else next

  -- The two ports that a table for a subsystem and a target gets.
  unfoldable pub routing_token_port : Routes → String × String → Option ℕ
  unfolding find_key
  routing_token_port r key = find_key key r.routing_base_ports

  unfoldable pub table_update_port : Routes → String × String → Option ℕ
  unfolding find_key
  table_update_port r key = elim (find_key key r.routing_base_ports) [
    | none ↦ none
    | some port ↦ some (port + r.router_id)
  ]

-- The port of the first routing process.
abbrev pub routing_base : ℕ → ℕ → ℕ → ℕ
routing_base base_port ports_per_partition partition_number =
    base_port + 10 + ports_per_partition * partition_number
