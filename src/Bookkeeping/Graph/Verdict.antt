-- ===== src/Bookkeeping/Graph/Verdict.antt =====
-- rc/control/bookkeeping.py, `find_cycle_in_subsystem_graph`: the search as a decision.
use artdaq_daqinterface.Prelude.{String, ◌≡◌, refl, ◌⊎◌, inl, inr, true, List, Dict, has}
use artdaq_daqinterface.Bookkeeping.Graph.{
  Subsystem, Marks, Search, clear, found, failed, find_cycle_in_subsystem_graph,
}
use artdaq_daqinterface.Bookkeeping.Graph.Acyclic.{Grounded}
use artdaq_daqinterface.Bookkeeping.Graph.Grounded.{find_cycle-Grounded}
use artdaq_daqinterface.Bookkeeping.Graph.Cycle.{IsCycle, reported-IsCycle}
use artdaq_daqinterface.Bookkeeping.Graph.Traced.{last}
use artdaq_daqinterface.Bookkeeping.Graph.Loops.{IsCycle-not-Grounded}
use artdaq_daqinterface.Bookkeeping.Graph.Depth.{find_cycle-ne-failed}

-- Nothing was found, and from every subsystem the walk along known sources ends.
pub record IsAcyclic (g : Dict Subsystem) : Type 0 where
  pub marks : Marks
  pub returned : find_cycle_in_subsystem_graph g ≡ clear marks
  pub ends : (ss : String) → has ss g ≡ true → Grounded g ss

-- A path was found; it is a cycle, so the walk along known sources need not end at its last name.
pub record IsCyclic (g : Dict Subsystem) : Type 0 where
  pub path : List String
  pub returned : find_cycle_in_subsystem_graph g ≡ found path
  pub cycle : IsCycle g path
  pub endless : ¬ Grounded g (last cycle.start cycle.rest)

-- The search returns None and from every subsystem the walk along known sources ends, or it returns
-- a path that is a cycle, from whose last name the walk need not end. It raises nothing, and its
-- depth of recursion is enough.
pub find_cycle_decides : (g : Dict Subsystem) → IsAcyclic g ⊎ IsCyclic g
find_cycle_decides g = go (find_cycle_in_subsystem_graph g) refl
  where
    go : (r : Search) → find_cycle_in_subsystem_graph g ≡ r → IsAcyclic g ⊎ IsCyclic g
    go (clear m) e =
        inl (record { marks = m; returned = e; ends = λ ss. find_cycle-Grounded g m ss e })
    go (found path) e =
        let c = reported-IsCycle g path e in
        inr (record { path = path; returned = e; cycle = c; endless = IsCycle-not-Grounded path c })
    go (failed x) e = absurd (find_cycle-ne-failed g x e)
