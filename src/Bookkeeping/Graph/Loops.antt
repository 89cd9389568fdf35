-- ===== src/Bookkeeping/Graph/Loops.antt =====
-- rc/control/bookkeeping.py, `find_cycle_in_subsystem_graph`: no walk ends on a cycle.
use mathlib.Core.WellFounded.{Acc}
use artdaq_daqinterface.Prelude.{
  String, ◌=ₛ◌ as ◌==◌, ◌≡◌, refl, inl, inr, true, List, [], ◌∷◌, Dict, isin, eq_iff, Bool-cases,
}
use artdaq_daqinterface.Bookkeeping.Graph.{Subsystem}
use artdaq_daqinterface.Bookkeeping.Graph.Acyclic.{Edge, Grounded}
use artdaq_daqinterface.Bookkeeping.Graph.Traced.{Walk, last, front}
use artdaq_daqinterface.Bookkeeping.Graph.Cycle.{IsCycle}

-- A walk of one or more steps.
data Trail (g : Dict Subsystem) : String → String → Type 0 where
  one : {v w : String} → Edge g v w → Trail g v w
  more : {v u w : String} → Edge g v u → Trail g u w → Trail g v w

Trail-snoc : {g : Dict Subsystem} {v w u : String} → Trail g v w → Edge g w u → Trail g v u
Trail-snoc (one a) b = more a (one b)
Trail-snoc (more a t) b = more a (Trail-snoc t b)

Walk-Trail :
    {g : Dict Subsystem} (v w : String) (q : List String)
    → Edge g v w
    → Walk g w q
    → Trail g v (last w q)
Walk-Trail v w [] a walk = one a
Walk-Trail v w (u ∷ q) a (b, walk) = more a (Walk-Trail w u q b walk)

front-Trail :
    {g : Dict Subsystem} (x v : String) (q : List String)
    → Walk g v q
    → isin x (front v q) ≡ true
    → Trail g x (last v q)
unfolding isin
front-Trail x v [] walk h = absurd (cc)
front-Trail x v (w ∷ q) (a, walk) h = elim (Bool-cases (v == x)) [
  | inl e ↦ rw (← (eq_iff v x).0 e) (Walk-Trail v w q a walk)
  | inr e ↦ front-Trail x w q walk (rw e at h)
]

-- The first step of a loop, and the same loop entered one step later.
rotate :
    {g : Dict Subsystem} (v w : String)
    → Trail g v w
    → v ≡ w
    → (u : String) × Edge g v u × Trail g u u
rotate v w (one a) e = (v, rw (← e) at a, one (rw (← e) at a))
rotate v w (more {u = u} a t) e = (u, a, Trail-snoc t (rw e at a))

Grounded-no_loop : {g : Dict Subsystem} (v : String) → Grounded g v → ¬ Trail g v v
Grounded-no_loop v (Acc.intro _ below) trail =
    let (u, a, t) = rotate v v trail refl in Grounded-no_loop u (below u a) t

-- From the end of a reported path the walk along sources can go on for ever.
pub IsCycle-not-Grounded :
    {g : Dict Subsystem} (path : List String) (c : IsCycle g path)
    → ¬ Grounded g (last c.start c.rest)
IsCycle-not-Grounded path c grounded =
    Grounded-no_loop (last c.start c.rest) grounded
      (front-Trail (last c.start c.rest) c.start c.rest c.walked c.closed)
