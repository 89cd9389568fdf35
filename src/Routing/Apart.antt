-- ===== src/Routing/Apart.antt =====
-- rc/control/bookkeeping.py: the ports in the tables of routing processes.
use artdaq_daqinterface.Prelude.{
  ℕ, ◌+◌, ◌<◌, ◌≢◌, String, ◌=ₛ◌, ◌≡◌, refl, sym, subst, ◌∙◌, true, false, not, ◌&&◌, some, List,
  [], ◌∷◌, if_cases, Bool-absurd, and-true, arith, eq_iff, Dict, length, ltb, ◌==◌,
}
use artdaq_daqinterface.Boot.{set_of}
use artdaq_daqinterface.Bookkeeping.Graph.{Subsystem}
use artdaq_daqinterface.Wiring.{same_key}
use artdaq_daqinterface.Routing.{
  Router, Routes, find_key, route_one, route_subsystem, route_all, routers_for_subsystem, targets,
  routing_token_port, table_update_port,
}
use artdaq_daqinterface.Routing.Spread.{
  PortTable, IsSpread, assign-IsSpread, find_key-IsFresh, find_key-range,
}

same_key-same :
    (h k k' : String × String) → same_key h k ≡ true → same_key h k' ≡ true → same_key k k' ≡ true
same_key-same h k k' a b =
    let (a0, a1) = and-true (h.0 =ₛ k.0) (h.1 =ₛ k.1) a in
    let (b0, b1) = and-true (h.0 =ₛ k'.0) (h.1 =ₛ k'.1) b in
    let e0 = sym ((eq_iff h.0 k.0).0 a0) ∙ (eq_iff h.0 k'.0).0 b0 in
    let e1 = sym ((eq_iff h.1 k.1).0 a1) ∙ (eq_iff h.1 k'.1).0 b1 in
    rw ((eq_iff k.0 k'.0).1 e0, (eq_iff k.1 k'.1).1 e1) refl

find_key-apart :
    (base count a b : ℕ) (k k' : String × String) (t : PortTable)
    → IsSpread base count t
    → same_key k k' ≡ false
    → find_key k t ≡ some a
    → find_key k' t ≡ some b
    → a ≢ b
unfolding find_key
find_key-apart base count a b k k' [] s other e f = cc
find_key-apart base count a b k k' ((h, m) ∷ rest) s other e f =
    if_cases (λ o. o ≡ some a → a ≢ b) (same_key h k)
      (λ here g.
        if_cases (λ o. o ≡ some b → a ≢ b) (same_key h k')
          (λ there j. absurd (Bool-absurd (same_key-same h k k' here there) other))
          (λ there j.
            let differs = find_key-IsFresh m b k' rest s.2 j in
            let same : m ≡ a = cc in omega (arith, differs, same))
          f)
      (λ here g.
        if_cases (λ o. o ≡ some b → a ≢ b) (same_key h k')
          (λ there j.
            let differs = find_key-IsFresh m a k rest s.2 g in
            let same : m ≡ b = cc in omega (arith, differs, same))
          (λ there j. find_key-apart base count a b k k' rest s.3 other g j) f)
      e

module _ (base : ℕ) (hostname : String) where
  route_subsystem-IsSpread :
      (subsystem_id : String) (ps : List Router) (r : Routes)
      → IsSpread base r.router_id r.routing_base_ports
      → let r' = route_subsystem base hostname subsystem_id ps r in
        IsSpread base r'.router_id r'.routing_base_ports
  unfolding route_subsystem route_one
  route_subsystem-IsSpread subsystem_id [] r s = s
  route_subsystem-IsSpread subsystem_id (p ∷ ps) r s =
      route_subsystem-IsSpread subsystem_id ps (route_one base hostname subsystem_id p r)
        (assign-IsSpread base r.router_id (subsystem_id, p.target) r.routing_base_ports s)

  route_all-IsSpread :
      (ps : List Router) (subsystems : Dict Subsystem) (r r' : Routes)
      → IsSpread base r.router_id r.routing_base_ports
      → route_all base hostname ps subsystems r ≡ some r'
      → IsSpread base r'.router_id r'.routing_base_ports
  unfolding route_all
  route_all-IsSpread ps [] r r' s e =
      subst (λ x. IsSpread base x.router_id x.routing_base_ports) (inner e) s
    where
      inner : some r ≡ some r' → r ≡ r'
      inner f = cc
  route_all-IsSpread ps ((subsystem_id, subsystem) ∷ rest) r r' s e =
      let routers = routers_for_subsystem subsystem_id subsystem.sources ps in
      let routed = route_subsystem base hostname subsystem_id routers r in
      let later =
        route_all-IsSpread ps rest routed r' (route_subsystem-IsSpread subsystem_id routers r s) in
      if_cases (λ o. o ≡ some r' → IsSpread base r'.router_id r'.routing_base_ports)
        (ltb 1 (length routers)
          && not (length (targets routers) == length (set_of (targets routers))))
        (λ h f. cc) (λ h f. later f) e

table_update_port-some :
    (base : ℕ) (hostname : String) (r : Routes) (k : String × String) (token : ℕ)
    → find_key k r.routing_base_ports ≡ some token
    → table_update_port base hostname r k ≡ some (token + r.router_id)
unfolding table_update_port
table_update_port-some base hostname r k token e = rw (e, table_update_port) refl

-- Where the routing processes get their ports, the token ports of two different subsystems or targets
-- differ, no token port of the two is the update port of the second, and that one stays below the base
-- plus twice the number of ports given.
pub routing_ports_apart :
    (base : ℕ) (hostname : String) (ps : List Router) (subsystems : Dict Subsystem) (r : Routes)
    (k k' : String × String) (token token' update : ℕ)
    → route_all base hostname ps subsystems
        (record { routing_base_ports = []; router_process_hostnames = []; router_id = 0 })
      ≡ some r
    → same_key k k' ≡ false
    → routing_token_port base hostname r k ≡ some token
    → routing_token_port base hostname r k' ≡ some token'
    → table_update_port base hostname r k' ≡ some update
    → (token ≢ token')
      × (token ≢ update)
      × (token' ≢ update)
      × (update < base + r.router_id + r.router_id)
unfolding routing_token_port
routing_ports_apart base hostname ps subsystems r k k' token token' update routed other e f g =
    let spread =
      route_all-IsSpread base hostname ps subsystems
        (record { routing_base_ports = []; router_process_hostnames = []; router_id = 0 }) r tt
        routed in
    let (_, below) = find_key-range base r.router_id token k r.routing_base_ports spread e in
    let (above, below') = find_key-range base r.router_id token' k' r.routing_base_ports spread f in
    let shifted : some (token' + r.router_id) ≡ some update =
      sym (table_update_port-some base hostname r k' token' f) ∙ g in
    let update_is : token' + r.router_id ≡ update = cc in
    (
      find_key-apart base r.router_id token token' k k' r.routing_base_ports spread other e f,
      omega (arith, above, below, update_is),
      omega (arith, above, below', update_is),
      omega (arith, below', update_is),
    )
